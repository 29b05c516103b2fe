-- ===== src/Cache/Store.antt =====
-- What cache/cache.go relies on of gcache: `view` is what `Get` would answer. An entry that was
-- set stays until it is removed or evicted, and only a later `Set` may evict it.
use servicegateway.Prelude.{String, ◌≡◌, ◌≢◌, ◌⊎◌}
use servicegateway.Cache.{Item, Lookup, found, key_not_found, Gcache}

pub record IsCache {W : Type 0} (c : Gcache W) (view : String → W → Lookup) : Type 0 where
  pub get_view : (k : String) (w : W) → (c.get_item k w).0 ≡ view k w
  pub get_keeps : (j k : String) (w : W) → view j (c.get_item k w).1 ≡ view j w
  pub set_self : (k : String) (i : Item) (w : W) → view k (c.set_item k i w) ≡ found i
  pub set_other :
      (j k : String) (i : Item) (w : W)
      → k ≢ j
      → (view j (c.set_item k i w) ≡ view j w) ⊎ (view j (c.set_item k i w) ≡ key_not_found)
  pub remove_self : (k : String) (w : W) → view k (c.remove_item k w) ≡ key_not_found
  pub remove_other : (j k : String) (w : W) → k ≢ j → view j (c.remove_item k w) ≡ view j w
