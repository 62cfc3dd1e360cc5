-- ===== src/Bacnet/Primitive/Fields.antt =====
-- Dates, times and object identifiers there and back: internal/bacnet/value.go.
use bacnet_ip_rest_proxy.Prelude.{
  ℕ, ◌+◌, ◌*◌, ◌/◌, ◌%◌, ◌^◌, ◌≤◌, ◌<◌, bit_or, bit_and, ◌≡◌, refl, ◌==◌, if◌then◌else◌, ok, ℤ, pos,
  negsuc, arith, length,
}
use bacnet_ip_rest_proxy.Prelude.Bits.{bit_or-shift, bit_and_ones}
use bacnet_ip_rest_proxy.Bacnet.Tag.{uint32_of}
use bacnet_ip_rest_proxy.Bacnet.Primitive.{
  Date, Time, ObjectIdentifier, minus, enc, dec, encode_date_data, decode_date_data,
  encode_time_data, decode_time_data, encode_object_id_data, decode_object_id_data,
}

-- A field that is unspecified (-1), or counts from `lo` and fits the octets below 255.
abbrev pub IsField : ℕ → ℤ → Type 0
IsField lo (pos n) = (lo ≤ n) × (n < lo + 255)
IsField lo (negsuc n) = n ≡ 0

pub record IsDate (d : Date) : Type 0 where
  pub year_fits : IsField 1900 d.year
  pub month_fits : IsField 0 d.month
  pub day_fits : IsField 0 d.day
  pub day_of_week_fits : IsField 0 d.day_of_week

pub record IsTime (t : Time) : Type 0 where
  pub hour_fits : IsField 0 t.hour
  pub minute_fits : IsField 0 t.minute
  pub second_fits : IsField 0 t.second
  pub hundredth_fits : IsField 0 t.hundredth

-- A 10-bit type and a 22-bit instance.
pub record IsObjectIdentifier (o : ObjectIdentifier) : Type 0 where
  pub type_fits : o.object_type < 1024
  pub instance_fits : o.instance_number < 2 ^ 22

dec-enc : (v : ℤ) → IsField 0 v → dec (enc v) ≡ v
unfolding dec enc
dec-enc (pos n) h = ground arith
dec-enc (negsuc n) h = ground arith

year_back :
    (v : ℤ)
    → IsField 1900 v
    → (if enc (minus v 1900) == 255 then negsuc 0 else pos (enc (minus v 1900) + 1900)) ≡ v
unfolding enc
year_back (pos n) h = ground arith
year_back (negsuc n) h = ground arith

-- A date between 1900 and 2154, each field possibly unspecified, reads back.
pub decode_date_data-encode_date_data :
    (d : Date) → IsDate d → decode_date_data (encode_date_data d) ≡ ok d
unfolding decode_date_data encode_date_data
decode_date_data-encode_date_data d h = rw (
  year_back d.year h.year_fits,
  dec-enc d.month h.month_fits,
  dec-enc d.day h.day_fits,
  dec-enc d.day_of_week h.day_of_week_fits,
)

pub decode_time_data-encode_time_data :
    (t : Time) → IsTime t → decode_time_data (encode_time_data t) ≡ ok t
unfolding decode_time_data encode_time_data
decode_time_data-encode_time_data t h = rw (
  dec-enc t.hour h.hour_fits,
  dec-enc t.minute h.minute_fits,
  dec-enc t.second h.second_fits,
  dec-enc t.hundredth h.hundredth_fits,
)

-- The 32 bits that a type and an instance take.
raw_object_id : ℕ → ℕ → ℕ
raw_object_id t i = bit_or (t * 2 ^ 22 % 2 ^ 32) (bit_and i 0x3fffff)

raw_object_id_lem : (t i : ℕ) → t < 1024 → i < 2 ^ 22 → raw_object_id t i ≡ t * 2 ^ 22 + i
unfolding raw_object_id
raw_object_id_lem t i ht hi =
    let a : t * 2 ^ 22 % 2 ^ 32 ≡ t * 2 ^ 22 = omega arith in
    let b : bit_and i 0x3fffff ≡ i = omega (arith, bit_and_ones 22 i) in
    rw (a, b) (bit_or-shift 22 t i hi)

uint32_back :
    (w : ℕ)
    → w < 2 ^ 32
    → uint32_of (w / 2 ^ 24 % 256) (w / 2 ^ 16 % 256) (w / 256 % 256) (w % 256) ≡ w
uint32_back w h = omega arith

type_back : (t i : ℕ) → i < 2 ^ 22 → (t * 2 ^ 22 + i) / 2 ^ 22 ≡ t
type_back t i h = omega arith

instance_back : (t i : ℕ) → i < 2 ^ 22 → bit_and (t * 2 ^ 22 + i) 0x3fffff ≡ i
instance_back t i h = omega (arith, bit_and_ones 22 (t * 2 ^ 22 + i))

pub decode_object_id_data-encode_object_id_data :
    (o : ObjectIdentifier)
    → IsObjectIdentifier o
    → decode_object_id_data (encode_object_id_data o) ≡ ok o
unfolding decode_object_id_data encode_object_id_data raw_object_id
decode_object_id_data-encode_object_id_data o h =
    let t = o.object_type in
    let i = o.instance_number in
    rw
      (
        raw_object_id_lem t i h.type_fits h.instance_fits,
        uint32_back (t * 2 ^ 22 + i) (omega arith),
      )
      (λ k. ok (record {
        object_type = type_back t i h.instance_fits k;
        instance_number = instance_back t i h.instance_fits k;
      }))

pub length-encode_object_id_data : (o : ObjectIdentifier) → length (encode_object_id_data o) ≡ 4
unfolding encode_object_id_data
length-encode_object_id_data o = refl

pub length-encode_date_data : (d : Date) → length (encode_date_data d) ≡ 4
unfolding encode_date_data
length-encode_date_data d = refl

pub length-encode_time_data : (t : Time) → length (encode_time_data t) ≡ 4
unfolding encode_time_data
length-encode_time_data t = refl
