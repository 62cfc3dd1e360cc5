-- ===== src/Bacnet/Primitive.antt =====
-- The data octets of primitive values: integers in as few octets as they need (tag.go), dates,
-- times and object identifiers (value.go). Bit strings and texts have modules of their own.
pub mod Integers
pub mod Fields
pub mod BitString
pub mod Text
use bacnet_ip_rest_proxy.Prelude.{
  ℕ, ◌+◌, ◌-◌, ◌*◌, ◌/◌, ◌%◌, ◌^◌, ◌<◌, bit_and, bit_or, Bool, true, false, not, ◌&&◌, ◌||◌, List,
  [], ◌∷◌, ltb, leb, ◌==◌, if◌then◌else◌, Outcome, ok, err, truncated, malformed, ◌>>=◌, ℤ, pos,
  negsuc, to_u64, of_u64, ◌≡◌,
}
use bacnet_ip_rest_proxy.Bacnet.Tag.{put_uint32, uint32_of}

-- `binary.BigEndian.PutUint64`
abbrev pub put_uint64 : ℕ → List ℕ
put_uint64 v =
    (v / 2 ^ 56 % 256) ∷ (v / 2 ^ 48 % 256) ∷ (v / 2 ^ 40 % 256) ∷ (v / 2 ^ 32 % 256) ∷ put_uint32 v

-- The loop of `minUnsignedBytes`: what is left of `tmp[i:]`; the last octet always stays.
strip_zeros : List ℕ → List ℕ
strip_zeros (a ∷ b ∷ rest) = if a == 0 then strip_zeros (b ∷ rest) else a ∷ b ∷ rest
strip_zeros rest = rest

unfoldable pub min_unsigned_bytes : ℕ → List ℕ
unfolding strip_zeros
min_unsigned_bytes v = strip_zeros (put_uint64 v)

-- Whether the octet `b` only repeats the sign bit of the octet `next`.
repeats_sign : ℕ → ℕ → Bool
repeats_sign b next =
    (b == 0x00 && bit_and next 0x80 == 0) || (b == 0xff && not (bit_and next 0x80 == 0))

strip_signs : List ℕ → List ℕ
unfolding repeats_sign
strip_signs (b ∷ next ∷ rest) =
    if repeats_sign b next then strip_signs (next ∷ rest) else b ∷ next ∷ rest
strip_signs rest = rest

unfoldable pub min_signed_bytes : ℤ → List ℕ
unfolding strip_signs
min_signed_bytes v = strip_signs (put_uint64 (to_u64 v))

-- `v<<8 | b` on 64 bits.
shift_in : ℕ → ℕ → ℕ
shift_in v b = bit_or (v * 256 % 2 ^ 64) b

unsigned_loop : ℕ → List ℕ → ℕ
unfolding shift_in
unsigned_loop v [] = v
unsigned_loop v (b ∷ rest) = unsigned_loop (shift_in v b) rest

unfoldable pub decode_unsigned_data : List ℕ → ℕ
unfolding unsigned_loop
decode_unsigned_data octets = unsigned_loop 0 octets

-- `int64(int8(b))`, as the bit pattern.
sign_extend : ℕ → ℕ
sign_extend b = if ltb b 128 then b else 2 ^ 64 - 256 + b

unfoldable pub decode_signed_data : List ℕ → ℤ
unfolding unsigned_loop sign_extend
decode_signed_data [] = pos 0
decode_signed_data (b ∷ rest) = of_u64 (unsigned_loop (sign_extend b) rest)

pub record Date : Type 0 where
  pub year : ℤ
  pub month : ℤ
  pub day : ℤ
  pub day_of_week : ℤ

pub record Time : Type 0 where
  pub hour : ℤ
  pub minute : ℤ
  pub second : ℤ
  pub hundredth : ℤ

pub record ObjectIdentifier : Type 0 where
  pub object_type : ℕ
  pub instance_number : ℕ

-- `v - k` on Go's `int`, away from its bounds.
abbrev minus : ℤ → ℕ → ℤ
minus (pos n) k = if leb k n then pos (n - k) else negsuc (k - n - 1)
minus (negsuc n) k = negsuc (n + k)

-- The `enc` and `dec` of dates and times.
enc : ℤ → ℕ
enc (pos n) = n % 256
enc (negsuc n) = 255

dec : ℕ → ℤ
dec v = if v == 255 then negsuc 0 else pos v

unfoldable pub encode_date_data : Date → List ℕ
unfolding enc
encode_date_data d = enc (minus d.year 1900) ∷ enc d.month ∷ enc d.day ∷ enc d.day_of_week ∷ []

unfoldable pub decode_date_data : List ℕ → Outcome Date
unfolding dec
decode_date_data (y ∷ m ∷ d ∷ w ∷ []) = ok (record {
  year = if y == 255 then negsuc 0 else pos (y + 1900);
  month = dec m;
  day = dec d;
  day_of_week = dec w;
})
decode_date_data _ = err malformed

unfoldable pub encode_time_data : Time → List ℕ
unfolding enc
encode_time_data t = enc t.hour ∷ enc t.minute ∷ enc t.second ∷ enc t.hundredth ∷ []

unfoldable pub decode_time_data : List ℕ → Outcome Time
unfolding dec
decode_time_data (h ∷ m ∷ s ∷ c ∷ []) =
    ok (record { hour = dec h; minute = dec m; second = dec s; hundredth = dec c })
decode_time_data _ = err malformed

-- `uint32(Type)<<22 | Instance&0x3FFFFF`
unfoldable pub encode_object_id_data : ObjectIdentifier → List ℕ
encode_object_id_data o =
    put_uint32 (bit_or (o.object_type * 2 ^ 22 % 2 ^ 32) (bit_and o.instance_number 0x3fffff))

unfoldable pub decode_object_id_data : List ℕ → Outcome ObjectIdentifier
decode_object_id_data (a ∷ b ∷ c ∷ d ∷ []) =
    let raw = uint32_of a b c d in
    ok (record { object_type = raw / 2 ^ 22; instance_number = bit_and raw 0x3fffff })
decode_object_id_data _ = err malformed
