-- ===== src/Api/Caller.antt =====
-- The caller of a request, internal/api/middleware.go: its address, and its bearer credential.
-- Texts are their bytes.
use bacnet_ip_rest_proxy.Prelude.{
  ℕ, ◌+◌, Bool, true, false, ◌&&◌, ◌||◌, List, [], ◌∷◌, length, take, drop, Option, none, some, ltb,
  leb, ◌==◌, if◌then◌else◌, ◌≡◌, refl,
}
use bacnet_ip_rest_proxy.Prelude.Decimal.{Bytes, codes}

-- The part before a comma.
unfoldable pub before_comma : Bytes → Bytes
before_comma [] = []
before_comma (c ∷ s) = let rest = before_comma s in if c == b',' then [] else c ∷ rest

-- `strings.TrimSpace`, of the ASCII spaces.
unfoldable pub is_space : ℕ → Bool
is_space c = (c == 32) || (leb 9 c && leb c 13)

unfoldable pub trim_left : Bytes → Bytes
unfolding is_space
trim_left [] = []
trim_left (c ∷ s) = let rest = trim_left s in if is_space c then rest else c ∷ s

unfoldable pub trim_right : Bytes → Bytes
unfolding is_space
trim_right [] = []
trim_right (c ∷ s) = elim (trim_right s) [
  | [] ↦ if is_space c then [] else c ∷ []
  | d ∷ t ↦ c ∷ d ∷ t
]

unfoldable pub trim_space : Bytes → Bytes
unfolding trim_left trim_right
trim_space s = trim_right (trim_left s)

-- `strings.EqualFold` of a text with an ASCII one in which no letter folds outside ASCII.
unfoldable pub fold : ℕ → ℕ
fold c = if leb b'A' c && leb c b'Z' then c + 32 else c

unfoldable pub equal_fold : Bytes → Bytes → Bool
unfolding fold
equal_fold [] [] = true
equal_fold (a ∷ s) (b ∷ t) = (fold a == fold b) && equal_fold s t
equal_fold s t = false

-- `bearerToken`, of the Authorization header, [] without one.
unfoldable pub bearer_token : Bytes → Bytes
unfolding equal_fold
bearer_token h =
    if ltb 7 (length h) && equal_fold (take 7 h) (codes "Bearer ") then drop 7 h else []

-- The package net: the host of a remote address, addresses, and networks that contain them.
module _ {Ip Net : Type 0} (split_host : Bytes → Option Bytes) (parse_ip : Bytes → Option Ip)
    (contains : Net → Ip → Bool) where
  unfoldable pub in_some : List Net → Ip → Bool
  in_some [] ip = false
  in_some (n ∷ ns) ip = let rest = in_some ns ip in if contains n ip then true else rest

  unfoldable pub is_trusted_proxy : List Net → Option Ip → Bool
  unfolding in_some
  is_trusted_proxy nets none = false
  is_trusted_proxy nets (some ip) = in_some nets ip

  -- The address in a header, where it has one.
  unfoldable pub forwarded : Bytes → Option Ip
  unfolding trim_space
  forwarded [] = none
  forwarded (c ∷ s) = parse_ip (trim_space (c ∷ s))

  unfoldable pub forwarded_for : Bytes → Option Ip
  unfolding trim_space before_comma
  forwarded_for [] = none
  forwarded_for (c ∷ s) = parse_ip (trim_space (before_comma (c ∷ s)))

  unfoldable pub peer_of : Bytes → Option Ip
  peer_of remote = elim (split_host remote) [ some host ↦ parse_ip host | none ↦ parse_ip remote ]

  -- `clientIP`, of the remote address and the headers X-Forwarded-For and X-Real-IP.
  unfoldable pub client_ip : List Net → Bytes → Bytes → Bytes → Option Ip
  unfolding peer_of is_trusted_proxy forwarded_for forwarded
  client_ip nets remote xff xrip =
      if is_trusted_proxy nets (peer_of remote)
      then elim (forwarded_for xff) [
        | some ip ↦ some ip
        | none ↦ elim (forwarded xrip) [ some ip ↦ some ip | none ↦ peer_of remote ]
      ]
      else peer_of remote

  -- From a peer that is no trusted proxy, the headers change nothing: the client's address is the
  -- peer's, whatever they say.
  pub client_ip-peer_of :
      (nets : List Net) (remote xff xrip : Bytes)
      → is_trusted_proxy nets (peer_of remote) ≡ false
      → client_ip nets remote xff xrip ≡ peer_of remote
  unfolding client_ip
  client_ip-peer_of nets remote xff xrip h = rw h refl
