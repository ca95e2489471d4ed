-- ===== src/Memory/Ids.antt =====
-- The ids of stores and indexes that the schema operations of crates/boa_idb_memory/src/txn.rs give.
use indexed_db_boa.Base.{
  ℕ, ◌+◌, ◌%◌, ◌^◌, ◌<◌, ◌≤◌, ◌≡◌, refl, false, List, [], ◌∷◌, All, All-append, any, Result, ok,
  err, ◌==◌, arith, Bool-cases, Result-cases, inl, inr,
}
use indexed_db_boa.Backend.{StoreSpec, IndexSpec, IndexMeta, StoreMeta, DatabaseMeta, BackendError}
use indexed_db_boa.Memory.{MemoryTxn}
use indexed_db_boa.Memory.Txn.{checked}
use indexed_db_boa.Memory.Schema.{
  check_upgrade, update_store, update_index, set_version, create_store, delete_store, rename_store,
  create_index, delete_index, rename_index,
}

-- The ids in a store's metadata are below two numbers.
abbrev pub StoreBelow : ℕ → ℕ → StoreMeta → Type 0
StoreBelow stores indexes s = (s.id < stores) × All (λ (i : IndexMeta). i.id < indexes) s.indexes

-- All ids in use are below the ids that come next.
abbrev pub IdsBelow : DatabaseMeta → Type 0
IdsBelow m = All (StoreBelow m.next_store_id m.next_index_id) m.stores

All-map {ℓ} :
    {A : Type ℓ} (P Q : A → Type 0) (xs : List A) → ((x : A) → P x → Q x) → All P xs → All Q xs
All-map P Q [] f h = tt
All-map P Q (x ∷ xs) f h = (f x h.0, All-map P Q xs f h.1)

update_store-All :
    (P : StoreMeta → Type 0) (id : ℕ) (f : StoreMeta → StoreMeta) (stores : List StoreMeta)
    → ((s : StoreMeta) → P s → P (f s))
    → All P stores
    → All P (update_store id f stores)
unfolding update_store
update_store-All P id f [] k h = tt
update_store-All P id f (s ∷ stores) k h = elim (Bool-cases (s.id == id)) [
  | inl e ↦ rw e (k s h.0, h.1)
  | inr e ↦ rw e (h.0, update_store-All P id f stores k h.1)
]

update_index-All :
    (P : IndexMeta → Type 0) (id : ℕ) (f : IndexMeta → IndexMeta) (indexes : List IndexMeta)
    → ((i : IndexMeta) → P i → P (f i))
    → All P indexes
    → All P (update_index id f indexes)
unfolding update_index
update_index-All P id f [] k h = tt
update_index-All P id f (i ∷ indexes) k h = elim (Bool-cases (i.id == id)) [
  | inl e ↦ rw e (k i h.0, h.1)
  | inr e ↦ rw e (h.0, update_index-All P id f indexes k h.1)
]

checked_keeps {ℓ} :
    {A : Type ℓ} (P : DatabaseMeta → Type 0) (guard : Result BackendError (Unit {0}))
    (t : MemoryTxn) (r : MemoryTxn × Result BackendError A)
    → P t.db_meta
    → P r.0.db_meta
    → P (checked guard t r).0.db_meta
checked_keeps P (ok u) t r h k = k
checked_keeps P (err e) t r h k = h

-- The schema operations.
pub data Upgrade (t : MemoryTxn) : MemoryTxn → Type 0 where
  sets_version : (version : ℕ) → Upgrade t (set_version t version).0
  creates_store : (spec : StoreSpec) → Upgrade t (create_store t spec).0
  deletes_store : (id : ℕ) → Upgrade t (delete_store t id).0
  renames_store : (id : ℕ) (name : List ℕ) → Upgrade t (rename_store t id name).0
  creates_index : (store : ℕ) (spec : IndexSpec) → Upgrade t (create_index t store spec).0
  drops_index : (store id : ℕ) → Upgrade t (delete_index t store id).0
  renames_index : (store id : ℕ) (name : List ℕ) → Upgrade t (rename_index t store id name).0

-- What one operation does to the ids: those in use stay below those that come next, which grow by 1
-- at most.
abbrev Grown : DatabaseMeta → DatabaseMeta → Type 0
Grown m d =
    IdsBelow d × (d.next_store_id ≤ m.next_store_id + 1) × (d.next_index_id ≤ m.next_index_id + 1)

no_wrap : (n : ℕ) → n + 1 < 2 ^ 64 → (n + 1) % 2 ^ 64 ≡ n + 1
no_wrap n h = omega arith

Upgrade-Grown :
    {t u : MemoryTxn}
    → Upgrade t u
    → t.db_meta.next_store_id + 1 < 2 ^ 64
    → t.db_meta.next_index_id + 1 < 2 ^ 64
    → IdsBelow t.db_meta
    → Grown t.db_meta u.db_meta
unfolding set_version create_store delete_store rename_store create_index delete_index rename_index
Upgrade-Grown {t} (sets_version v) a b h =
    let g : Grown t.db_meta t.db_meta = (h, omega arith, omega arith) in
    checked_keeps (Grown t.db_meta) (check_upgrade t) t _ g g
Upgrade-Grown {t} (creates_store spec) a b h =
    let m = t.db_meta in
    checked_keeps (Grown m) (check_upgrade t) t _ (h, omega arith, omega arith)
      (rw (no_wrap m.next_store_id a) (
        All-append (StoreBelow (m.next_store_id + 1) m.next_index_id) m.stores _
            (All-map _ _ m.stores (λ s. λ (a, b). (omega arith, b)) h) ((omega arith, tt), tt),
        omega arith,
        omega arith,
      ))
Upgrade-Grown {t} (deletes_store id) a b h =
    checked_keeps (Grown t.db_meta) (check_upgrade t) t _ (h, omega arith, omega arith)
      (update_store-All _ id _ t.db_meta.stores (λ s. λ a. a) h, omega arith, omega arith)
Upgrade-Grown {t} (renames_store id name) a b h =
    checked_keeps (Grown t.db_meta) (check_upgrade t) t _ (h, omega arith, omega arith)
      (update_store-All _ id _ t.db_meta.stores (λ s. λ a. a) h, omega arith, omega arith)
Upgrade-Grown {t} (creates_index store spec) a b h =
    let m = t.db_meta in
    let wider : All (StoreBelow m.next_store_id (m.next_index_id + 1)) m.stores =
      All-map _ _ m.stores (λ s. λ (a, b). (a, All-map _ _ s.indexes (λ i. λ c. omega arith) b))
        h in
    checked_keeps (Grown m) (check_upgrade t) t _ (h, omega arith, omega arith)
      (rw (no_wrap m.next_index_id b) (
        update_store-All (StoreBelow m.next_store_id (m.next_index_id + 1)) store _ m.stores
            (λ s. λ (a, b). (
              a,
              All-append (λ (i : IndexMeta). i.id < m.next_index_id + 1) s.indexes _ b
                  (omega arith, tt),
            ))
            wider,
        omega arith,
        omega arith,
      ))
Upgrade-Grown {t} (drops_index store id) a b h =
    checked_keeps (Grown t.db_meta) (check_upgrade t) t _ (h, omega arith, omega arith)
      (
        update_store-All _ store _ t.db_meta.stores
            (λ s. λ (a, b). (a, update_index-All _ id _ s.indexes (λ i. λ c. c) b)) h,
        omega arith,
        omega arith,
      )
Upgrade-Grown {t} (renames_index store id name) a b h =
    checked_keeps (Grown t.db_meta) (check_upgrade t) t _ (h, omega arith, omega arith)
      (
        update_store-All _ store _ t.db_meta.stores
            (λ s. λ (a, b). (a, update_index-All _ id _ s.indexes (λ i. λ c. c) b)) h,
        omega arith,
        omega arith,
      )

-- Any number of schema operations.
pub data Upgraded (t : MemoryTxn) : MemoryTxn → Type 0 where
  opened : Upgraded t t
  upgraded : {u v : MemoryTxn} → Upgraded t u → Upgrade u v → Upgraded t v

-- How many they are.
abbrev pub steps : {t u : MemoryTxn} → Upgraded t u → ℕ
steps opened = 0
steps (upgraded a b) = steps a + 1

Upgraded-IdsBelow :
    {t u : MemoryTxn} (a : Upgraded t u)
    → IdsBelow t.db_meta
    → t.db_meta.next_store_id + steps a < 2 ^ 64
    → t.db_meta.next_index_id + steps a < 2 ^ 64
    → IdsBelow u.db_meta
      × (u.db_meta.next_store_id ≤ t.db_meta.next_store_id + steps a)
      × (u.db_meta.next_index_id ≤ t.db_meta.next_index_id + steps a)
Upgraded-IdsBelow opened h k l = (h, omega arith, omega arith)
Upgraded-IdsBelow (upgraded a b) h k l =
    let (below, x, y) = Upgraded-IdsBelow a h (omega arith) (omega arith) in
    let (below', x', y') = Upgrade-Grown b (omega arith) (omega arith) below in
    (below', omega arith, omega arith)

unused :
    (stores indexes : ℕ) (xs : List StoreMeta)
    → All (StoreBelow stores indexes) xs
    → any (λ (s : StoreMeta). s.id == stores) xs ≡ false
unused stores indexes [] h = refl
unused stores indexes (s ∷ xs) h = ground (arith, h.0.0, unused stores indexes xs h.1)

-- In a transaction on a database whose ids are below those that come next, and when these leave room
-- below 2 ^ 64 for as many ids as there are schema operations: after the operations, the id that
-- `create_store` returns is that of no store of the database, deleted ones included.
pub create_store_fresh :
    {t u : MemoryTxn}
    → IdsBelow t.db_meta
    → (a : Upgraded t u) → t.db_meta.next_store_id + steps a < 2 ^ 64
    → t.db_meta.next_index_id + steps a < 2 ^ 64
    → (spec : StoreSpec) (id : ℕ) → (create_store u spec).1 ≡ ok id
    → any (λ (s : StoreMeta). s.id == id) u.db_meta.stores ≡ false
unfolding create_store
create_store_fresh {t} {u} h a k l spec id e = elim (Result-cases (check_upgrade u)) [
  | inr (x, f) ↦ absurd (let e' : err x ≡ ok id = rw f at e in cc)
  | inl (x, f) ↦
      let e' : ok u.db_meta.next_store_id ≡ ok id = rw f at e in
      let g : u.db_meta.next_store_id ≡ id = cc in
      rw (← g) (
        unused u.db_meta.next_store_id u.db_meta.next_index_id u.db_meta.stores
          (Upgraded-IdsBelow a h k l).0)
]
