-- ===== src/System/Ownership.antt =====
-- Which thread owns which registration.
use mvcc_lite.Prelude.{
  ℕ, ◌≤◌, ◌<◌, ◌≡◌, ◌≢◌, refl, sym, ap, ◌∙◌, Option, none, some, true, nat_beq_iff, nat_key, arith,
  inl, inr, ◌⊎◌,
}
use native.Mathlib.Decide.{ℕ_discrete}
use mvcc_lite.UnorderedMap.Laws.{Entries, Entries-map, Entries-assign, Entries-erase}
use mvcc_lite.VersionStore.Defs.{VersionStore}
use mvcc_lite.VersionStore.Invariant as StoreLaws
use mvcc_lite.TransactionManager.{TransactionManager, shard_for, register, unregister}
use mvcc_lite.TransactionManager.Laws as ManagerLaws
use mvcc_lite.TransactionManager.Laws.{registered, registered-lt-max, update-all}
use mvcc_lite.Transaction.Defs.{is_active}
use mvcc_lite.Transaction.Commit.{IsWellFormed}
use mvcc_lite.System.{Client, idle, fetched, placed, pinned, running, leaving, update}

-- The identifier that a thread holds.
abbrev pub id_of : Client → Option ℕ
id_of idle = none
id_of (fetched id) = some id
id_of (placed id) = some id
id_of (pinned id snapshot) = some id
id_of (running t) = some t.txn_id
id_of (leaving release t) = some t.txn_id

-- A thread has registered what its place in the code says, and its snapshot was given out.
abbrev pub Stands : TransactionManager → ℕ → Client → Type 0
Stands m next idle = Unit
Stands m next (fetched id) = (id < m.next_txn_id) × (ManagerLaws.registered id m ≡ none)
Stands m next (placed id) = ManagerLaws.registered id m ≡ some 0
Stands m next (pinned id snapshot) = (ManagerLaws.registered id m ≡ some 0) × (snapshot < next)
Stands m next (running t) =
    (ManagerLaws.registered t.txn_id m ≡ some t.snapshot_version)
    × (t.snapshot_version < next)
    × (is_active t ≡ true)
    × IsWellFormed t
Stands m next (leaving release t) =
    (ManagerLaws.registered t.txn_id m ≡ some t.snapshot_version)
    × ((m' : TransactionManager) → release m' ≡ unregister t.txn_id m')

-- The snapshots that are registered were given out.
abbrev pub AllBelow : ℕ → TransactionManager → Type 0
AllBelow next m = (i : ℕ) → Entries (λ _ snapshot. snapshot < next) (m.shards i)

AllBelow-widen :
    (next next' : ℕ) (m : TransactionManager) → next ≤ next' → AllBelow next m → AllBelow next' m
AllBelow-widen next next' m p h i =
    Entries-map (λ _ s. s < next) (λ _ s. s < next') (m.shards i) (λ _ s q. omega arith) (h i)

pub register-AllBelow :
    (next id snapshot : ℕ) (m : TransactionManager)
    → snapshot < next
    → AllBelow next m
    → AllBelow next (register id snapshot m)
unfolding register
register-AllBelow next id snapshot m p h i =
    update-all (Entries (λ _ s. s < next)) m.shards (shard_for id) _ i h
      (Entries-assign (λ _ s. s < next) id snapshot (m.shards (shard_for id)) p (h (shard_for id)))

pub unregister-AllBelow :
    (next id : ℕ) (m : TransactionManager) → AllBelow next m → AllBelow next (unregister id m)
unfolding unregister
unregister-AllBelow next id m h i =
    update-all (Entries (λ _ s. s < next)) m.shards (shard_for id) _ i h
      (Entries-erase (λ _ s. s < next) id (m.shards (shard_for id)) (h (shard_for id)))

-- An identifier that a thread holds was given out.
pub Stands-lt :
    (m : TransactionManager) (next : ℕ) (c : Client) (id : ℕ)
    → ManagerLaws.IsValid m
    → Stands m next c
    → id_of c ≡ some id
    → id < m.next_txn_id
Stands-lt m next idle id v h e = cc
Stands-lt m next (fetched j) id v h e = ground arith
Stands-lt m next (placed j) id v h e = ground (arith, registered-lt-max m j 0 v h)
Stands-lt m next (pinned j s) id v h e = ground (arith, registered-lt-max m j 0 v h.0)
Stands-lt m next (running t) id v h e =
    ground (arith, registered-lt-max m t.txn_id t.snapshot_version v h.0)
Stands-lt m next (leaving release t) id v h e =
    ground (arith, registered-lt-max m t.txn_id t.snapshot_version v h.0)

-- A change that leaves alone the registration of a thread leaves the thread where it stands.
Stands-frame :
    (m m' : TransactionManager) (next next' : ℕ) (c : Client)
    → m.next_txn_id ≤ m'.next_txn_id
    → next ≤ next'
    → ((id : ℕ) → id_of c ≡ some id → registered id m' ≡ registered id m)
    → Stands m next c
    → Stands m' next' c
Stands-frame m m' next next' idle p q same h = tt
Stands-frame m m' next next' (fetched id) p q same h = (omega (arith, h.0), same id refl ∙ h.1)
Stands-frame m m' next next' (placed id) p q same h = same id refl ∙ h
Stands-frame m m' next next' (pinned id s) p q same h = (same id refl ∙ h.0, omega (arith, h.1))
Stands-frame m m' next next' (running t) p q same h =
    (same t.txn_id refl ∙ h.0, omega (arith, h.1), h.2, h.3)
Stands-frame m m' next next' (leaving release t) p q same h = (same t.txn_id refl ∙ h.0, h.1)

-- Store and manager are well formed, each thread stands where its place in the code says, no two
-- hold the same identifier, and every registration belongs to a thread.
pub record IsOwned (s : VersionStore) (m : TransactionManager) (clients : ℕ → Client) : Type 0 where
  pub store : StoreLaws.IsValid s
  pub manager : ManagerLaws.IsValid m
  pub below : AllBelow s.next_version m
  pub stands : (i : ℕ) → Stands m s.next_version (clients i)
  pub apart : (i j id : ℕ) → id_of (clients i) ≡ some id → id_of (clients j) ≡ some id → i ≡ j
  pub owner :
      (id snapshot : ℕ) → registered id m ≡ some snapshot → (i : ℕ) × (id_of (clients i) ≡ some id)

-- The store changes, and no thread moves.
pub store-IsOwned :
    (s s' : VersionStore) (m : TransactionManager) (clients : ℕ → Client)
    → StoreLaws.IsValid s'
    → s.next_version ≤ s'.next_version
    → IsOwned s m clients
    → IsOwned s' m clients
store-IsOwned s s' m clients v p w = record {
  store = v;
  manager = w.manager;
  below = AllBelow-widen s.next_version s'.next_version m p w.below;
  stands = λ i.
      Stands-frame m m s.next_version s'.next_version (clients i) (omega arith) p (λ id e. refl)
        (w.stands i);
  apart = w.apart;
  owner = w.owner;
}

-- What a thread `i` may do with the manager, on behalf of the identifier `id`, to stand at `c`.
pub record Turns (m m' : TransactionManager) (next : ℕ) (clients : ℕ → Client) (i id : ℕ)
    (c : Client) : Type 0 where
  pub valid : ManagerLaws.IsValid m'
  pub below : AllBelow next m'
  pub grows : m.next_txn_id ≤ m'.next_txn_id
  pub same : (j : ℕ) → j ≢ id → registered j m' ≡ registered j m
  pub mine : (j : ℕ) → id_of (clients j) ≡ some id → j ≡ i
  pub held : (j : ℕ) → id_of (clients i) ≡ some j → j ≡ id
  pub stands : Stands m' next c
  pub holds : (j : ℕ) → id_of c ≡ some j → j ≡ id
  pub keeps : (snapshot : ℕ) → registered id m' ≡ some snapshot → id_of c ≡ some id

pub update-eq {ℓ} : {A : Type ℓ} (f : ℕ → A) (i j : ℕ) (a : A) → i ≡ j → update f i a j ≡ a
update-eq f i j a e = ground (arith, nat_beq_iff i j)

pub update-ne {ℓ} : {A : Type ℓ} (f : ℕ → A) (i j : ℕ) (a : A) → i ≢ j → update f i a j ≡ f j
update-ne f i j a e = ground (arith, nat_beq_iff i j)

-- Who holds an identifier after a move: the thread that moved, or another that held it before.
moved :
    (m m' : TransactionManager) (next : ℕ) (clients : ℕ → Client) (i id : ℕ) (c : Client) (j x : ℕ)
    → Turns m m' next clients i id c
    → id_of (update clients i c j) ≡ some x
    → ((i ≡ j) × (x ≡ id)) ⊎ ((i ≢ j) × (x ≢ id) × (id_of (clients j) ≡ some x))
moved m m' next clients i id c j x t e = elim (ℕ_discrete i j) [
  | yes here ↦ inl (here, t.holds x (rw (update-eq clients i j c here) at e))
  | no other ↦
      let e' : id_of (clients j) ≡ some x = rw (update-ne clients i j c other) at e in
      inr (other, (λ q. other (sym (t.mine j (e' ∙ ap some q)))), e')
]

moved-apart :
    (m m' : TransactionManager) (next : ℕ) (clients : ℕ → Client) (i id : ℕ) (c : Client)
    (j k x : ℕ)
    → Turns m m' next clients i id c
    → ((j k x : ℕ) → id_of (clients j) ≡ some x → id_of (clients k) ≡ some x → j ≡ k)
    → id_of (update clients i c j) ≡ some x
    → id_of (update clients i c k) ≡ some x
    → j ≡ k
moved-apart m m' next clients i id c j k x t apart p q =
    elim (moved m m' next clients i id c j x t p) [
      | inl a ↦ elim (moved m m' next clients i id c k x t q) [
        | inl b ↦ sym a.0 ∙ b.0
        | inr b ↦ absurd (b.1 a.1)
      ]
      | inr a ↦ elim (moved m m' next clients i id c k x t q) [
        | inl b ↦ absurd (a.1 b.1)
        | inr b ↦ apart j k x a.2 b.2
      ]
    ]

moved-owner :
    (m m' : TransactionManager) (next : ℕ) (clients : ℕ → Client) (i id : ℕ) (c : Client)
    (x snapshot : ℕ)
    → Turns m m' next clients i id c
    → ((x snapshot : ℕ) → registered x m ≡ some snapshot → (j : ℕ) × (id_of (clients j) ≡ some x))
    → registered x m' ≡ some snapshot
    → (j : ℕ) × (id_of (update clients i c j) ≡ some x)
moved-owner m m' next clients i id c x snapshot t owner r = elim (ℕ_discrete x id) [
  | yes mine ↦ (
    i,
    ap id_of (update-eq clients i i c refl) ∙ t.keeps snapshot (rw mine at r) ∙ ap some (sym mine),
  )
  | no other ↦
      let (j, e) = owner x snapshot (sym (t.same x other) ∙ r) in
      (j, ap id_of (update-ne clients i j c (λ q. other (t.held x (rw (← q) at e)))) ∙ e)
]

-- One thread moves, with the manager.
pub turn-IsOwned :
    (s : VersionStore) (m m' : TransactionManager) (clients : ℕ → Client) (i id : ℕ) (c : Client)
    → Turns m m' s.next_version clients i id c
    → IsOwned s m clients
    → IsOwned s m' (update clients i c)
turn-IsOwned s m m' clients i id c t w = record {
  store = w.store;
  manager = t.valid;
  below = t.below;
  stands = λ j. elim (ℕ_discrete i j) [
    | yes here ↦ rw (update-eq clients i j c here) t.stands
    | no other ↦ rw (update-ne clients i j c other) (
        Stands-frame m m' s.next_version s.next_version (clients j) t.grows (omega arith)
          (λ x e. t.same x (λ q. other (sym (t.mine j (e ∙ ap some q))))) (w.stands j))
  ];
  apart = λ j k x p q. moved-apart m m' s.next_version clients i id c j k x t w.apart p q;
  owner = λ x snapshot r. moved-owner m m' s.next_version clients i id c x snapshot t w.owner r;
}
