-- ===== src/Twasm/Handler/Release.antt =====
-- The release of one privilege by `handlePrivilege` of x/twasm/keeper/handler_plugin.go: the loop that
-- removes from the details while it iterates over them meets the entry once.
use tgrade.Base.{
  ℕ, suc, ◌%◌, ◌≡◌, refl, sym, ap, ◌∙◌, true, List, [], ◌∷◌, ◌++◌, arith, Outcome, ok, length, All,
  All-append, get_elem?, some,
}
use mathlib.Core.List.{append_assoc, append-nil}
use tgrade.Twasm.Privilege.{privilege_type_from}
use tgrade.Twasm.Details.{
  RegisteredPrivilege, Details, array, loaded, push_last, iterate_step, iterate_loop,
}
use tgrade.Twasm.Details.Remove.{
  erase, mem, removed, get-append, length-snoc, push_last_lem, push_last-append, last_of,
  All-last_of,
}
use tgrade.Twasm.Details.Valid.{IsEntry, IsOtherType, IsValid}
use tgrade.Twasm.Details.Erase.{
  equal_refl, IsOtherType-IsOther, remove_registered_privilege-removed,
}
use tgrade.Twasm.Keeper.{State, remove_privilege_registration}
use tgrade.Twasm.Keeper.Demotion.{IsBeside, registered_type_from, type_ne}
use tgrade.Twasm.Handler.{unregister_one, unregister_all}

abbrev Entries : Type 0
Entries = List RegisteredPrivilege

-- Others before it, the entry `v` itself, others behind it.
pub record Splits (v : RegisteredPrivilege) (pre post : Entries) : Type 0 where
  pub entry : IsEntry v
  pub before : All (IsBeside v) pre
  pub behind : All (IsBeside v) post

pub IsValid-Splits :
    (v : RegisteredPrivilege) (pre post : Entries) → IsValid (pre ++ v ∷ post) → Splits v pre post
IsValid-Splits v [] post h = record { entry = h.0; before = tt; behind = all post h.2 h.1 }
  where
    all : (l : Entries) → IsValid l → All (IsOtherType v) l → All (IsBeside v) l
    all [] h o = tt
    all (w ∷ l) h o = ((h.0, o.0), all l h.2 o.1)
IsValid-Splits v (x ∷ pre) post h =
    let rest = IsValid-Splits v pre post h.2 in
    record {
      entry = rest.entry;
      before = ((h.0, λ e. at pre h.1 (sym e)), rest.before);
      behind = rest.behind;
    }
  where
    at : (l : Entries) → All (IsOtherType x) (l ++ v ∷ post) → IsOtherType x v
    at [] o = o.0
    at (w ∷ l) o = at l o.1

erase-split :
    (v : RegisteredPrivilege) (pre post : Entries)
    → All (IsBeside v) pre
    → (erase v (pre ++ v ∷ post) ≡ pre ++ post) × (mem v (pre ++ v ∷ post) ≡ true)
unfolding erase mem
erase-split v [] post h = rw (equal_refl v) (refl, refl)
erase-split v (x ∷ pre) post h =
    let ih = erase-split v pre post h.1 in
    rw (IsOtherType-IsOther v x h.0.1) (ap (◌∷◌ x) ih.0, ih.1)

removed-split :
    (v : RegisteredPrivilege) (pre post st : Entries)
    → All (IsBeside v) pre
    → removed v (record { live = pre ++ v ∷ post; stale = st })
      ≡ record { live = pre ++ post; stale = push_last (v ∷ post) st }
unfolding removed
removed-split v pre post st h =
    let (e, m) = erase-split v pre post h in rw (m, e, push_last-append pre v post st)

module _ {W : Type 0} (a tp : ℕ) (v : RegisteredPrivilege)
    (named : privilege_type_from v.privilege_type ≡ some tp) where
  abbrev loop : ℕ → ℕ → Details × State W → Outcome (Details × State W)
  loop = iterate_loop (λ x. array x.0) (unregister_one a tp)

  -- A round at an entry of another type changes nothing.
  loop-other :
      (n i : ℕ) (w : RegisteredPrivilege) (d : Details) (s : State W)
      → get_elem? (array d) i ≡ some w
      → IsBeside v w
      → loop (suc n) i (d, s) ≡ loop n (suc i) (d, s)
  unfolding iterate_loop iterate_step unregister_one
  loop-other n i w d s e h =
      let (t, f) = registered_type_from w h.0 in ground (arith, e, f, type_ne v w tp t named f h.1)

  -- The round at the entry itself.
  loop_self :
      (n i : ℕ) (d : Details) (s : State W)
      → get_elem? (array d) i ≡ some v
      → IsValid d.live
      → IsEntry v
      → loop (suc n) i (d, s)
        ≡ loop n (suc i) (removed v d, (remove_privilege_registration tp (v.position % 256) a s).1)
  unfolding iterate_loop iterate_step unregister_one
  loop_self n i d s e valid h =
      ground (arith, e, named, remove_registered_privilege-removed v tp d valid h named)

  loop_others :
      (cur pre rest : Entries) (d : Details) (s : State W)
      → array d ≡ pre ++ (cur ++ rest)
      → All (IsBeside v) cur
      → loop (length cur) (length pre) (d, s) ≡ ok (d, s)
  loop_others [] pre rest d s e h = unfold iterate_loop in refl
  loop_others (x ∷ cur) pre rest d s e h =
      loop-other (length cur) (length pre) x d s (rw e (get-append pre x (cur ++ rest))) h.0
      ∙ rw (← length-snoc pre x) (
          loop_others cur (pre ++ x ∷ []) rest d s
            (e ∙ sym (append_assoc pre (x ∷ []) (cur ++ rest))) h.1)

  -- The rounds up to the entry itself.
  loop_before :
      (todo pre post st : Entries) (s : State W)
      → All (IsBeside v) todo
      → let d : Details = record { live = pre ++ (todo ++ v ∷ post); stale = st } in
        loop (length (todo ++ v ∷ post)) (length pre) (d, s)
        ≡ loop (suc (length post)) (length (pre ++ todo)) (d, s)
  loop_before [] pre post st s h = rw (append-nil pre)
  loop_before (x ∷ todo) pre post st s h =
      let d : Details = record { live = pre ++ (x ∷ todo ++ v ∷ post); stale = st } in
      loop-other (length (todo ++ v ∷ post)) (length pre) x d s
        (rw (append_assoc pre (x ∷ todo ++ v ∷ post) st)
          (get-append pre x ((todo ++ v ∷ post) ++ st)))
        h.0
      ∙ rw
          (
            length-snoc pre x,
            append_assoc pre (x ∷ []) (todo ++ v ∷ post),
            append_assoc pre (x ∷ []) todo,
          )
          at (loop_before todo (pre ++ x ∷ []) post st s h.1)

  -- The rounds behind it read entries that moved up, and at last the copy that stayed behind.
  loop_behind :
      (pre post st : Entries) (s : State W)
      → All (IsBeside v) post
      → let d : Details = record { live = pre ++ post; stale = push_last (v ∷ post) st } in
        loop (length post) (suc (length pre)) (d, s) ≡ ok (d, s)
  unfolding last_of
  loop_behind pre [] st s h = unfold iterate_loop in refl
  loop_behind pre (y ∷ post) st s h = rw (push_last_lem v (y ∷ post) st) quiet
    where
      l : RegisteredPrivilege
      l = last_of v (y ∷ post)

      d : Details
      d = record { live = pre ++ y ∷ post; stale = l ∷ st }

      others : All (IsBeside v) (post ++ l ∷ [])
      others = All-append (IsBeside v) post (l ∷ []) h.1 (All-last_of (IsBeside v) y post h, tt)

      quiet : loop (suc (length post)) (suc (length pre)) (d, s) ≡ ok (d, s)
      quiet =
          rw (length-snoc post l, length-snoc pre y) at
            (loop_others (post ++ l ∷ []) (pre ++ y ∷ []) st d s (simp append_assoc) others)

  unregister_all-loop :
      (ps : Entries) (d : Details) (s s' : State W)
      → loop (length ps) 0 (loaded ps, s) ≡ ok (d, s')
      → unregister_all a tp ps s ≡ (ok d, s')
  unfolding unregister_all
  unregister_all-loop ps d s s' e = rw (e, unregister_all)

  -- The release of a privilege from valid details takes exactly its entry out of the details, whatever
  -- stands around it, and its registration out of the index.
  pub unregister_all-removes :
      (pre post : Entries) (s : State W)
      → IsValid (pre ++ v ∷ post)
      → (st : Entries) × (unregister_all a tp (pre ++ v ∷ post) s ≡ (
        ok (record { live = pre ++ post; stale = st }),
        (remove_privilege_registration tp (v.position % 256) a s).1,
      ))
  unregister_all-removes pre post s valid =
      let split = IsValid-Splits v pre post valid in
      let s' = (remove_privilege_registration tp (v.position % 256) a s).1 in
      (
        push_last (v ∷ post) [],
        unregister_all-loop (pre ++ v ∷ post) _ s s' (
            loop_before pre [] post [] s split.before
            ∙ loop_self (length post) (length pre) (loaded (pre ++ v ∷ post)) s
                (rw (append-nil (pre ++ v ∷ post)) (get-append pre v post)) valid split.entry
            ∙ rw (removed-split v pre post [] split.before)
                (loop_behind pre post [] s' split.behind)),
      )
