-- ===== src/Bacnet/Objects/Names.antt =====
-- Tables of names, internal/bacnet/objects.go: which tables read back what they print.
use bacnet_ip_rest_proxy.Prelude.{
  ℕ, ◌≤◌, ◌≡◌, refl, ◌∙◌, inl, inr, Bool, true, not, ◌&&◌, [], ◌∷◌, ◌++◌, append_assoc, Option,
  none, some, is_present, leb, Option-cases, le→ltb_false, arith,
}
use bacnet_ip_rest_proxy.Prelude.Decimal.{Bytes, cut_prefix, print_decimal}
use bacnet_ip_rest_proxy.Prelude.Decimal.RoundTrip.{
  same_bytes_self, same_bytes-eq, cut_prefix-append, cut_last-append, parse_uint32-print_decimal,
}
use bacnet_ip_rest_proxy.Bacnet.Objects.{
  Names, find_name, find_number, number_within, parse_numbered, print_named, parse_named,
}

-- No name stands in the table twice.
unfoldable pub distinct_names : Names → Bool
distinct_names [] = true
distinct_names ((n, name) ∷ table) =
    not (is_present (find_number name table)) && distinct_names table

-- No name begins with the prefix.
unfoldable pub without_prefix : Bytes → Names → Bool
without_prefix prefix [] = true
without_prefix prefix ((n, name) ∷ table) =
    not (is_present (cut_prefix prefix name)) && without_prefix prefix table

unfoldable pub numbers_within : ℕ → Names → Bool
numbers_within limit [] = true
numbers_within limit ((n, name) ∷ table) = leb n limit && numbers_within limit table

find_number-find_name :
    (n : ℕ) (name : Bytes) (table : Names)
    → distinct_names table ≡ true
    → find_name n table ≡ some name
    → find_number name table ≡ some n
unfolding find_name find_number distinct_names
find_number-find_name n name [] d h = cc
find_number-find_name n name ((m, w) ∷ table) d h =
    ground (arith, same_bytes_self w, same_bytes-eq w name, find_number-find_name n name table)

find_number-without_prefix :
    (prefix s r : Bytes) (table : Names)
    → without_prefix prefix table ≡ true
    → cut_prefix prefix s ≡ some r
    → find_number s table ≡ none
unfolding find_number without_prefix
find_number-without_prefix prefix s r [] d h = refl
find_number-without_prefix prefix s r ((m, w) ∷ table) d h =
    ground (arith, same_bytes-eq w s, find_number-without_prefix prefix s r table)

find_number-le :
    (limit n : ℕ) (s : Bytes) (table : Names)
    → numbers_within limit table ≡ true
    → find_number s table ≡ some n
    → n ≤ limit
unfolding find_number numbers_within
find_number-le limit n s [] w h = cc
find_number-le limit n s ((m, name) ∷ table) w h = ground (arith, find_number-le limit n s table)

module _ (prefix : Bytes) (limit : ℕ) where
  number_within-print_decimal :
      (n : ℕ) → n ≤ limit → limit ≤ 4294967295 → number_within limit (print_decimal n) ≡ some n
  unfolding number_within
  number_within-print_decimal n small fits =
      rw (parse_uint32-print_decimal n (omega arith), number_within, le→ltb_false limit n small)
        refl

  parse_numbered-number :
      (n : ℕ)
      → n ≤ limit
      → limit ≤ 4294967295
      → parse_numbered (prefix ++ b'(' ∷ (print_decimal n ++ b')' ∷ [])) prefix limit ≡ some n
  unfolding parse_numbered
  parse_numbered-number n small fits =
      let inner = print_decimal n ++ b')' ∷ [] in
      let opened = cut_prefix-append (prefix ++ b'(' ∷ []) inner in
      rw
        (
          ← append_assoc prefix (b'(' ∷ []) inner,
          opened,
          cut_last-append b')' (print_decimal n),
          parse_numbered,
        )
        (number_within-print_decimal n small fits)

  print_named-eq :
      (table : Names) (n : ℕ) (name : Option Bytes)
      → find_name n table ≡ name
      → print_named table prefix n
        ≡ elim name [ some s ↦ s | none ↦ prefix ++ b'(' ∷ (print_decimal n ++ b')' ∷ []) ]
  unfolding print_named
  print_named-eq table n name e = rw (← e) refl

  parse_named-eq :
      (table : Names) (s : Bytes) (number : Option ℕ)
      → find_number s table ≡ number
      → parse_named table prefix limit s
        ≡ elim number [ some n ↦ some n | none ↦ parse_numbered s prefix limit ]
  unfolding parse_named
  parse_named-eq table s number e = rw (← e) refl

  -- Every number within the limit reads back from its print.
  pub parse_named-print_named :
      (table : Names) (n : ℕ)
      → distinct_names table ≡ true
      → without_prefix (prefix ++ b'(' ∷ []) table ≡ true
      → n ≤ limit
      → limit ≤ 4294967295
      → parse_named table prefix limit (print_named table prefix n) ≡ some n
  parse_named-print_named table n distinct plain small fits =
      let inner = print_decimal n ++ b')' ∷ [] in
      let opened : cut_prefix (prefix ++ b'(' ∷ []) (prefix ++ b'(' ∷ inner) ≡ some inner =
        rw⁻¹ (append_assoc prefix (b'(' ∷ []) inner)
          (cut_prefix-append (prefix ++ b'(' ∷ []) inner) in
      elim (Option-cases (find_name n table)) [
        | inr (name, e) ↦
            rw (print_named-eq table n (some name) e)
              (parse_named-eq table name (some n) (find_number-find_name n name table distinct e))
        | inl e ↦ rw (print_named-eq table n none e) (
            parse_named-eq table _ none
              (find_number-without_prefix (prefix ++ b'(' ∷ []) _ inner table plain opened)
            ∙ parse_numbered-number n small fits)
      ]

  number_within-le : (n : ℕ) (s : Bytes) → number_within limit s ≡ some n → n ≤ limit
  unfolding number_within
  number_within-le n s h = ground arith

  pub parse_named-le :
      (table : Names) (n : ℕ) (s : Bytes)
      → numbers_within limit table ≡ true
      → parse_named table prefix limit s ≡ some n
      → n ≤ limit
  unfolding parse_named parse_numbered
  parse_named-le table n s w h =
      ground (arith, find_number-le limit n s table w, number_within-le n s)
