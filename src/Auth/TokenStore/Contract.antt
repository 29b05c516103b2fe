-- ===== src/Auth/TokenStore/Contract.antt =====
-- What a `TokenStore` (auth/tokenstore.go) promises of its tokens.
use servicegateway.Prelude.{String, ◌≡◌, ◌≢◌, ◌⊎◌, [], Option, none, some}
use servicegateway.Prelude.Int.{ℤ}
use servicegateway.Effects.{Outcome, returned}
use servicegateway.Auth.Types.{JwtResponse, Result, ok}
use servicegateway.Auth.TokenStore.{TokenStore, LocalItem, text, cached, unknown, Lru}

-- The abstract store: `held t w` is the response that the world holds for a token.
abbrev pub Held : Type 0 → Type 0
Held W = String → W → JwtResponse

abbrev pub Same : {W : Type 0} → Held W → W → W → Type 0
Same held w w' = (u : String) → held u w' ≡ held u w

-- Only the token `t` has changed, and now has the response `r`.
abbrev pub Put : {W : Type 0} → Held W → String → JwtResponse → W → W → Type 0
Put held t r w w' = (held t w' ≡ r) × ((u : String) → u ≢ t → held u w' ≡ held u w)

abbrev pub IfSet :
    {W : Type 0} → Held W → String → JwtResponse → W → Outcome (Result ℤ) × W → Type 0
IfSet held t r w (returned (ok exp), w') = Put held t r w w'
IfSet held t r w (o, w') = Same held w w'

abbrev pub IfAdded :
    {W : Type 0} → Held W → JwtResponse → W → Outcome (Result (String × ℤ)) × W → Type 0
IfAdded held r w (returned (ok (t, exp)), w') = Put held t r w w'
IfAdded held r w (o, w') = Same held w w'

abbrev pub IfGot : {W : Type 0} → Held W → String → W → Outcome (Result JwtResponse) × W → Type 0
IfGot held t w (returned (ok r), w') = Same held w w' × (r ≡ held t w)
IfGot held t w (o, w') = Same held w w'

-- The contract of a store: in worlds with `Inv`, which every call keeps, a response that fits is held once it
-- is set or added, a call that fails changes nothing, and `get_token` returns what is held or fails.
pub record IsTokenMap {W : Type 0} (store : TokenStore W) (held : Held W) (Inv : W → Type 0)
    (Fits : JwtResponse → Type 0) : Type 0 where
  pub set_held :
      (t : String) (r : JwtResponse) (w : W)
      → Fits r
      → Inv w
      → IfSet held t r w (store.set_token t r w)
  pub set_Inv :
      (t : String) (r : JwtResponse) (w : W) → Fits r → Inv w → Inv (store.set_token t r w).1
  pub add_held : (r : JwtResponse) (w : W) → Fits r → Inv w → IfAdded held r w (store.add_token r w)
  pub add_Inv : (r : JwtResponse) (w : W) → Fits r → Inv w → Inv (store.add_token r w).1
  pub get_held : (t : String) (w : W) → Inv w → IfGot held t w (store.get_token t w)
  pub get_Inv : (t : String) (w : W) → Inv w → Inv (store.get_token t w).1

-- What a layer with the LRU cache relies on: the cache forgets entries at most, it and the store behind it
-- do not touch each other's state.
pub record IsLayer {W : Type 0} (lru : Lru W) (view : String → W → Option LocalItem)
    (wrapped : TokenStore W) (held : Held W) (Inv : W → Type 0) : Type 0 where
  pub get_view : (k : String) (w : W) → (lru.get k w).0 ≡ view k w
  pub add_self : (k : String) (i : LocalItem) (w : W) → view k (lru.add k i w) ≡ some i
  pub add_other :
      (j k : String) (i : LocalItem) (w : W)
      → j ≢ k
      → (view j (lru.add k i w) ≡ view j w) ⊎ (view j (lru.add k i w) ≡ none)
  pub get_keeps : (j k : String) (w : W) → view j (lru.get k w).1 ≡ view j w
  pub add_held : (k : String) (i : LocalItem) (w : W) → Same held w (lru.add k i w)
  pub get_held : (k : String) (w : W) → Same held w (lru.get k w).1
  pub add_Inv : (k : String) (i : LocalItem) (w : W) → Inv w → Inv (lru.add k i w)
  pub get_Inv : (k : String) (w : W) → Inv w → Inv (lru.get k w).1
  pub view_set :
      (j t : String) (r : JwtResponse) (w : W) → view j (wrapped.set_token t r w).1 ≡ view j w
  pub view_add :
      (j : String) (r : JwtResponse) (w : W) → view j (wrapped.add_token r w).1 ≡ view j w
  pub view_get : (j t : String) (w : W) → view j (wrapped.get_token t w).1 ≡ view j w

-- What `GetToken` makes of an item is the response that is held.
abbrev pub Agrees : LocalItem → JwtResponse → Type 0
Agrees (text s) r = record { jwt = s; allowed_applications = [] } ≡ r
Agrees (cached c) r = c.token ≡ r
Agrees unknown r = Unit

-- The cache agrees with the store behind it.
abbrev pub Coherent :
    {W : Type 0} → (String → W → Option LocalItem) → Held W → (W → Type 0) → W → Type 0
Coherent view held Inv w =
    Inv w × ((t : String) (i : LocalItem) → view t w ≡ some i → Agrees i (held t w))
