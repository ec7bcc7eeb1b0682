-- ===== src/Db/Snapshot/View.antt =====
-- What `Get` shows of a `Database` after each of its operations.
use go_tron.Prelude.{
  true, false, Option, none, some, List, [], ◌∷◌, ◌≡◌, refl, if◌then◌else◌, arith,
}
use go_tron.Prelude.Bytes.{Bytes, bytes_eq, bytes_eq_iff, bytes_eq_instance}
use go_tron.Prelude.Map.{Map, lookup, insert, IsUnique, lookup-insert, insert-IsUnique}
use go_tron.Prelude.Result.{Result, ok, err}
use go_tron.Db.Kv.{Error, not_found, Kv, presence}
use go_tron.Db.Snapshot.{Entry, Session, Database, merge, flush, get, has, put, delete, commit}

-- The sessions are maps: no key stands twice in one of them.
abbrev pub AllUnique : List Session → Type 0
AllUnique [] = Unit
AllUnique (s ∷ ss) = IsUnique s.writes × AllUnique ss

abbrev pub or_else {ℓ} : {A : Type ℓ} → Option A → Option A → Option A
or_else none o = o
or_else (some a) o = some a

-- The entries of the inner session go over those of its parent.
lookup-merge :
    (j : Bytes) (w p : Map Bytes Entry)
    → IsUnique w
    → lookup j (merge w p) ≡ or_else (lookup j w) (lookup j p)
unfolding merge lookup
lookup-merge j [] p h = refl
lookup-merge j ((k, e) ∷ w) p h =
    ground (arith, bytes_eq_iff k j, lookup-merge j w (insert k e p) h.1, lookup-insert k j e p)

pub merge-IsUnique : (w p : Map Bytes Entry) → IsUnique p → IsUnique (merge w p)
unfolding merge
merge-IsUnique [] p h = h
merge-IsUnique ((k, e) ∷ w) p h = merge-IsUnique w (insert k e p) (insert-IsUnique k e p h)

module _ (kv : Kv) where
  abbrev pub IsValid : Database kv → Type 0
  IsValid d = kv.IsWf d.base × AllUnique d.sessions

  -- What an entry of a session shows of a key.
  abbrev shown : Option Entry → Result Error Bytes → Result Error Bytes
  shown none r = r
  shown (some e) r = if e.deleted then err not_found else ok e.value

  get-flush :
      (j : Bytes) (w : Map Bytes Entry) (b : kv.Store)
      → IsUnique w
      → (flush kv w b).1 ≡ none
      → kv.get j (flush kv w b).0 ≡ shown (lookup j w) (kv.get j b)
  unfolding flush lookup
  get-flush j [] b h q = refl
  get-flush j ((k, e) ∷ w) b h q = ground (
    arith,
    bytes_eq_iff k j,
    kv.get-put k j e.value b,
    kv.get-delete k j b,
    get-flush j w (kv.put k e.value b).0 h.1,
    get-flush j w (kv.delete k b).0 h.1,
  )

  -- A write that succeeded is read back, and no other key is touched, at every depth.
  pub get-put :
      (k j v : Bytes) (d : Database kv)
      → (put kv k v d).1 ≡ none
      → get kv j (put kv k v d).0 ≡ (if bytes_eq k j then ok v else get kv j d)
  unfolding get put
  get-put k j v d h = go d.sessions d.base h
    where
      go :
          (ss : List Session) (b : kv.Store)
          → (put kv k v (record { base = b; sessions = ss })).1 ≡ none
          → get kv j (put kv k v (record { base = b; sessions = ss })).0
            ≡ (if bytes_eq k j then ok v else get kv j (record { base = b; sessions = ss }))
      go [] b h = kv.get-put k j v b h
      go (s ∷ ss) b h =
          ground (arith, lookup-insert k j (record { value = v; deleted = false }) s.writes)

  -- A deleted key reads as absent, and no other key is touched, at every depth.
  pub get-delete :
      (k j : Bytes) (d : Database kv)
      → (delete kv k d).1 ≡ none
      → get kv j (delete kv k d).0 ≡ (if bytes_eq k j then err not_found else get kv j d)
  unfolding get delete
  get-delete k j d h = go d.sessions d.base h
    where
      go :
          (ss : List Session) (b : kv.Store)
          → (delete kv k (record { base = b; sessions = ss })).1 ≡ none
          → get kv j (delete kv k (record { base = b; sessions = ss })).0 ≡ (
              if bytes_eq k j then err not_found else get kv j (record { base = b; sessions = ss }))
      go [] b h = kv.get-delete k j b h
      go (s ∷ ss) b h =
          ground (arith, lookup-insert k j (record { value = []; deleted = true }) s.writes)

  -- `Has` agrees with `Get`.
  pub has-get : (k : Bytes) (d : Database kv) → has kv k d ≡ presence (get kv k d)
  unfolding get has
  has-get k d = ground (arith, kv.has_lem k d.base)

  -- Where the merge or the flush succeeds, `Commit` changes nothing that can be read: the entries
  -- of the innermost session show through its parent, or through the committed engine.
  pub get-commit :
      (j : Bytes) (d : Database kv)
      → IsValid d
      → (commit kv d).2 ≡ none
      → get kv j (commit kv d).0 ≡ get kv j d
  unfolding get commit
  get-commit j d h q = go d.sessions d.base h.1 q
    where
      go :
          (ss : List Session) (b : kv.Store)
          → AllUnique ss
          → (commit kv (record { base = b; sessions = ss })).2 ≡ none
          → get kv j (commit kv (record { base = b; sessions = ss })).0
            ≡ get kv j (record { base = b; sessions = ss })
      go [] b h q = refl
      go (s ∷ []) b h q = ground (arith, get-flush j s.writes b h.0)
      go (s ∷ p ∷ ss) b h q = ground (arith, lookup-merge j s.writes p.writes h.0)
