-- ===== src/Store/Hits.antt =====
-- Which row an UPDATE by key hits, and what stands in it afterwards.
use anvil_notify.Prelude.{
  ◌≡◌, inl, inr, Bool, true, false, String, some, [], ◌∷◌, arith, ◌==◌, find, Bool-cases,
}
use anvil_notify.Common.Error.{ok}
use anvil_notify.Common.Event.{Uuid}
use anvil_notify.Store.Table.{Row, Table, has_key, lookup, update, rows_affected}
use anvil_notify.Store.Log.{must_hit}
use anvil_notify.Store.Invariant.{lookup-update, KeepsKey}

-- What a search finds passes its test, and the rows that pass it are then not none.
find_passes : (p : Row → Bool) (t : Table) (r : Row) → find p t ≡ some r → p r ≡ true
find_passes p [] r h = cc
find_passes p (x ∷ t) r h = elim (Bool-cases (p x)) [
  | inl y ↦ ground (arith)
  | inr n ↦ find_passes p t r (ground (arith))
]

find_affects :
    (p : Row → Bool) (t : Table) (r : Row) → find p t ≡ some r → (rows_affected p t == 0) ≡ false
find_affects p [] r h = cc
find_affects p (x ∷ t) r h = elim (Bool-cases (p x)) [
  | inl y ↦ rw y (ground arith)
  | inr n ↦ rw n (find_affects p t r (ground (arith)))
]

module _ (op : String) (e : Uuid) (m : String) (f : Row → Row) (t : Table) (r : Row)
    (found : lookup e m t ≡ some r) where
  pub must_hit_found : must_hit op e m f t ≡ (ok tt, update (has_key e m) f t)
  must_hit_found = rw (find_affects (has_key e m) t r found)

  pub lookup-must_hit : KeepsKey f → lookup e m (must_hit op e m f t).1 ≡ some (f r)
  lookup-must_hit k =
      rw must_hit_found (
        rw (lookup-update (has_key e m) f k e m t, found)
          (rw (find_passes (has_key e m) t r found)))
