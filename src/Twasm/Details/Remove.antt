-- ===== src/Twasm/Details/Remove.antt =====
-- `RemoveRegisteredPrivilege` of x/twasm/types/contract_extension.go: what its loop over a slice that
-- shrinks in place does.
use tgrade.Base.{
  suc, ◌≡◌, refl, sym, ap, ◌∙◌, Bool, true, false, List, [], ◌∷◌, ◌++◌, arith, if◌then◌else◌, ok,
  length, get_elem?, All, All-append, length-append, some, ⊤, Bool-cases, inl, inr,
}
use mathlib.Core.List.{append_assoc}
use tgrade.Twasm.Details.{
  RegisteredPrivilege, Details, array, equal, erase_at, push_last, remove_index, remove_step,
  remove_loop,
}

abbrev pub IsOther : RegisteredPrivilege → RegisteredPrivilege → Type 0
IsOther src v = equal src v ≡ false

-- The list without its first element that equals `src`, if there is one.
unfoldable pub erase : RegisteredPrivilege → List RegisteredPrivilege → List RegisteredPrivilege
erase src [] = []
erase src (v ∷ vs) = if equal src v then vs else v ∷ erase src vs

unfoldable pub mem : RegisteredPrivilege → List RegisteredPrivilege → Bool
mem src [] = false
mem src (v ∷ vs) = if equal src v then true else mem src vs

-- At most one element equals `src`.
abbrev pub AtMostOnce : RegisteredPrivilege → List RegisteredPrivilege → Type 0
AtMostOnce src [] = ⊤
AtMostOnce src (v ∷ vs) = (equal src v ≡ true → All (IsOther src) vs) × AtMostOnce src vs

pub get-append :
    (pre : List RegisteredPrivilege) (x : RegisteredPrivilege) (rest : List RegisteredPrivilege)
    → get_elem? (pre ++ x ∷ rest) (length pre) ≡ some x
get-append [] x rest = refl
get-append (p ∷ pre) x rest = get-append pre x rest

pub length-snoc :
    (pre : List RegisteredPrivilege) (x : RegisteredPrivilege)
    → length (pre ++ x ∷ []) ≡ suc (length pre)
length-snoc pre x = omega (arith, length-append pre (x ∷ []))

erase_at-append :
    (pre : List RegisteredPrivilege) (x : RegisteredPrivilege) (rest : List RegisteredPrivilege)
    → erase_at (length pre) (pre ++ x ∷ rest) ≡ pre ++ rest
unfolding erase_at
erase_at-append [] x rest = refl
erase_at-append (p ∷ pre) x rest = ap (◌∷◌ p) (erase_at-append pre x rest)

-- Rounds that meet no equal element change nothing.
remove_loop_none :
    (src : RegisteredPrivilege) (d : Details) (cur pre rest : List RegisteredPrivilege)
    → array d ≡ pre ++ (cur ++ rest)
    → All (IsOther src) cur
    → remove_loop (length cur) (length pre) src d ≡ ok d
unfolding remove_loop remove_step
remove_loop_none src d [] pre rest e h = refl
remove_loop_none src d (x ∷ cur) pre rest e h =
    rw (e, remove_step, get-append pre x (cur ++ rest), h.0)
      (rw (← length-snoc pre x) (
        remove_loop_none src d cur (pre ++ x ∷ []) rest
          (e ∙ sym (append_assoc pre (x ∷ []) (cur ++ rest))) h.1))

unfoldable pub last_of : RegisteredPrivilege → List RegisteredPrivilege → RegisteredPrivilege
last_of x [] = x
last_of x (y ∷ xs) = last_of y xs

pub push_last_lem :
    (x : RegisteredPrivilege) (xs s : List RegisteredPrivilege)
    → push_last (x ∷ xs) s ≡ last_of x xs ∷ s
unfolding push_last last_of
push_last_lem x [] s = refl
push_last_lem x (y ∷ xs) s = push_last_lem y xs s

pub push_last-append :
    (pre : List RegisteredPrivilege) (x : RegisteredPrivilege) (xs s : List RegisteredPrivilege)
    → push_last (pre ++ x ∷ xs) s ≡ push_last (x ∷ xs) s
unfolding push_last
push_last-append [] x xs s = refl
push_last-append (p ∷ []) x xs s = refl
push_last-append (p ∷ q ∷ pre) x xs s = push_last-append (q ∷ pre) x xs s

pub All-last_of {κ} :
    (P : RegisteredPrivilege → Type κ) (x : RegisteredPrivilege) (xs : List RegisteredPrivilege)
    → All P (x ∷ xs)
    → P (last_of x xs)
unfolding last_of
All-last_of P x [] h = h.0
All-last_of P x (y ∷ xs) h = All-last_of P y xs h.1

pub All-push_last {κ} :
    (P : RegisteredPrivilege → Type κ) (xs s : List RegisteredPrivilege)
    → All P xs
    → All P s
    → All P (push_last xs s)
unfolding push_last
All-push_last P [] s h hs = hs
All-push_last P (x ∷ []) s h hs = (h.0, hs)
All-push_last P (x ∷ y ∷ xs) s h hs = All-push_last P (y ∷ xs) s h.1 hs

-- The slice after one removal: the others keep their order, and the last element is left behind.
unfoldable pub removed : RegisteredPrivilege → Details → Details
removed src d =
    if mem src d.live
    then record { live = erase src d.live; stale = push_last d.live d.stale }
    else d

-- After the removal at the end of `pre` the remaining rounds read elements of `xs` only.
after_removal :
    (src x : RegisteredPrivilege) (pre xs s : List RegisteredPrivilege)
    → All (IsOther src) xs
    → let d : Details = record { live = pre ++ xs; stale = push_last (x ∷ xs) s } in
      remove_loop (length xs) (suc (length pre)) src d ≡ ok d
unfolding remove_loop last_of
after_removal src x pre [] s h = refl
after_removal src x pre (y ∷ xs) s h = rw (push_last_lem x (y ∷ xs) s) quiet
  where
    l : RegisteredPrivilege
    l = last_of x (y ∷ xs)

    d : Details
    d = record { live = pre ++ y ∷ xs; stale = l ∷ s }

    others : All (IsOther src) (xs ++ l ∷ [])
    others = All-append (IsOther src) xs (l ∷ []) h.1 (All-last_of (IsOther src) y xs h, tt)

    quiet : remove_loop (suc (length xs)) (suc (length pre)) src d ≡ ok d
    quiet =
        rw (length-snoc xs l, length-snoc pre y) at
          (remove_loop_none src d (xs ++ l ∷ []) (pre ++ y ∷ []) s (simp append_assoc) others)

remove_step_at :
    (src x : RegisteredPrivilege) (pre xs s : List RegisteredPrivilege)
    → let d : Details = record { live = pre ++ x ∷ xs; stale = s } in
      remove_step (length pre) src d ≡ (if equal src x then remove_index (length pre) d else ok d)
unfolding remove_step
remove_step_at src x pre xs s =
    rw (append_assoc pre (x ∷ xs) s, remove_step, get-append pre x (xs ++ s))

remove_index_at :
    (x : RegisteredPrivilege) (pre xs s : List RegisteredPrivilege)
    → remove_index (length pre) (record { live = pre ++ x ∷ xs; stale = s })
      ≡ ok (record { live = pre ++ xs; stale = push_last (x ∷ xs) s })
unfolding remove_index
remove_index_at x pre xs s =
    ground
      (arith, length-append pre (x ∷ xs), erase_at-append pre x xs, push_last-append pre x xs s)

remove_loop_hit :
    (src x : RegisteredPrivilege) (pre xs s : List RegisteredPrivilege)
    → equal src x ≡ true
    → All (IsOther src) xs
    → remove_loop (suc (length xs)) (length pre) src (record { live = pre ++ x ∷ xs; stale = s })
      ≡ ok (record { live = pre ++ xs; stale = push_last (x ∷ xs) s })
unfolding remove_loop
remove_loop_hit src x pre xs s e h =
    rw (remove_step_at src x pre xs s, e, remove_index_at x pre xs s)
      (after_removal src x pre xs s h)

remove_loop_miss :
    (src x : RegisteredPrivilege) (pre xs s : List RegisteredPrivilege)
    → equal src x ≡ false
    → remove_loop (suc (length xs)) (length pre) src (record { live = pre ++ x ∷ xs; stale = s })
      ≡ remove_loop
          (length xs)
          (length (pre ++ x ∷ []))
          src
          (record { live = (pre ++ x ∷ []) ++ xs; stale = s })
unfolding remove_loop
remove_loop_miss src x pre xs s e =
    rw (remove_step_at src x pre xs s, e, length-snoc pre x, append_assoc pre (x ∷ []) xs)

push_last_cons :
    (src x : RegisteredPrivilege) (xs s : List RegisteredPrivilege)
    → mem src xs ≡ true
    → push_last (x ∷ xs) s ≡ push_last xs s
unfolding push_last mem
push_last_cons src x [] s m = cc
push_last_cons src x (y ∷ xs) s m = refl

abbrev slice : List RegisteredPrivilege → List RegisteredPrivilege → Details
slice l s = record { live = l; stale = s }

-- A miss before the rounds that are left is part of the result.
scanned_miss :
    (src x : RegisteredPrivilege) (pre xs s : List RegisteredPrivilege)
    → (if mem src xs
        then slice ((pre ++ x ∷ []) ++ erase src xs) (push_last xs s)
        else slice ((pre ++ x ∷ []) ++ xs) s)
      ≡ (if mem src xs
          then slice (pre ++ x ∷ erase src xs) (push_last (x ∷ xs) s)
          else slice (pre ++ x ∷ xs) s)
scanned_miss src x pre xs s = elim (Bool-cases (mem src xs)) [
  | inl m ↦ rw (m, push_last_cons src x xs s m, append_assoc pre (x ∷ []) (erase src xs))
  | inr m ↦ rw (m, append_assoc pre (x ∷ []) xs)
]

remove_loop_scan :
    (src : RegisteredPrivilege) (pre todo s : List RegisteredPrivilege)
    → AtMostOnce src todo
    → remove_loop (length todo) (length pre) src (record { live = pre ++ todo; stale = s })
      ≡ ok (
          if mem src todo
          then record { live = pre ++ erase src todo; stale = push_last todo s }
          else record { live = pre ++ todo; stale = s })
unfolding mem erase
remove_loop_scan src pre [] s once = unfold remove_loop in refl
remove_loop_scan src pre (x ∷ xs) s once = elim (Bool-cases (equal src x)) [
  | inl e ↦ rw e (remove_loop_hit src x pre xs s e (once.0 e))
  | inr e ↦
      rw (e, remove_loop_miss src x pre xs s e, remove_loop_scan src (pre ++ x ∷ []) xs s once.1)
        (ap ok (scanned_miss src x pre xs s))
]

-- On a list that has the entry at most once, `RemoveRegisteredPrivilege` does not panic, takes out
-- that entry, and leaves the others in their order.
pub remove_loop-removed :
    (src : RegisteredPrivilege) (d : Details)
    → AtMostOnce src d.live
    → remove_loop (length d.live) 0 src d ≡ ok (removed src d)
unfolding removed
remove_loop-removed src d once = remove_loop_scan src [] d.live d.stale once
