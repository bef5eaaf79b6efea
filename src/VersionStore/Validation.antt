-- ===== src/VersionStore/Validation.antt =====
-- The validation pass of `ApplyBatchIfNoConflict`: which keys conflict.
use mvcc_lite.Prelude.{ℕ, ◌≤◌, ◌≡◌, refl, ◌↔◌, String, List, [], ◌∷◌, some, false, arith, back}
use mvcc_lite.UnorderedMap.Laws.{Entries}
use mvcc_lite.VersionStore.Defs.{VersionedValue, WriteOp}
use mvcc_lite.VersionStore.{History, history_of, is_newer, conflicts}
use mvcc_lite.VersionStore.Visible.{Versions}
use mvcc_lite.VersionStore.Sweep.{IsEntry}
use mvcc_lite.VersionStore.Invariant.{history_of-Versions}

-- Nothing that is left in the history was written after the snapshot.
abbrev pub Untouched : ℕ → History → Type 0
Untouched snap [] = Unit
Untouched snap (v ∷ h) = (v.version ≤ snap) × Untouched snap h

-- The store holds no version of a key of the batch that is newer than the snapshot.
abbrev pub AllUntouched : ℕ → List (String × History) → List WriteOp → Type 0
AllUntouched snap table [] = Unit
AllUntouched snap table (op ∷ ops) =
    Untouched snap (history_of op.key table) × AllUntouched snap table ops

back_newest :
    (lo hi : ℕ) (h : History) (w : VersionedValue)
    → Versions lo hi h
    → back h ≡ some w
    → lo ≤ w.version
back_newest lo hi [] w r e = cc
back_newest lo hi (v ∷ []) w r e = ground arith
back_newest lo hi (v ∷ v' ∷ h) w r e = ground (arith, back_newest v.version hi (v' ∷ h) w r.2)

pub not-newer-Untouched :
    (snap lo hi : ℕ) (h : History)
    → Versions lo hi h
    → is_newer snap (back h) ≡ false
    → Untouched snap h
unfolding is_newer
not-newer-Untouched snap lo hi [] r e = tt
not-newer-Untouched snap lo hi (v ∷ []) r e = ground arith
not-newer-Untouched snap lo hi (v ∷ v' ∷ h) r e =
    let rest : Untouched snap (v' ∷ h) =
      not-newer-Untouched snap v.version hi (v' ∷ h) r.2 (ground arith) in
    (omega arith, rest)

pub Untouched-not-newer :
    (snap : ℕ) (h : History) → Untouched snap h → is_newer snap (back h) ≡ false
unfolding is_newer
Untouched-not-newer snap [] u = refl
Untouched-not-newer snap (v ∷ []) u = ground arith
Untouched-not-newer snap (v ∷ v' ∷ h) u = ground (arith, Untouched-not-newer snap (v' ∷ h) u.1)

-- The validation finds no conflict exactly if no key of the batch has a newer version
-- in the store.
pub conflicts_iff :
    (snap n : ℕ) (table : List (String × History)) (ops : List WriteOp)
    → Entries (IsEntry n) table
    → (conflicts snap table ops ≡ []) ↔ AllUntouched snap table ops
unfolding conflicts
conflicts_iff snap n table [] e = (λ p. tt, λ p. refl)
conflicts_iff snap n table (op ∷ ops) e =
    let rest = conflicts_iff snap n table ops e in
    let r = history_of-Versions n op.key table e in
    (
      λ p. (
        not-newer-Untouched snap 1 n (history_of op.key table) r (ground arith),
        rest.0 (ground arith),
      ),
      λ u. rw (Untouched-not-newer snap (history_of op.key table) u.0) (rest.1 u.1),
    )
