-- ===== src/Twasm/Abci/Begin.antt =====
-- The evidence that `BeginBlocker` of x/twasm/abci.go passes on, and how the callback ends.
use tgrade.Base.{
  ℕ, ⊤, ◌≡◌, refl, Bool, true, false, ◌||◌, ◌&&◌, none, some, List, [], ◌∷◌, Outcome, ok, err,
  panic, ◌>>=◌, arith, ◌⊎◌, inl, inr, Option-cases, is_some,
}
use tgrade.Base.Int.{ℤ, pos, negsuc}
use tgrade.Twasm.Privilege
use tgrade.Twasm.Callbacks.{SudoMsg, Evidence, EvidenceType}
use tgrade.Twasm.Keeper.{State, privileged_contracts_by_type}
use tgrade.Twasm.Keeper.Privileged.{Contracts}
use tgrade.Twasm.Abci.{
  AbciEvidence, known_type, conv_uint64, convert, collect_evidence, send_all, begin_blocker,
}
use tgrade.Twasm.Abci.Blocks.{Sends, send_all-Sends, Runs}

-- The message's evidence for one of the consensus engine's.
pub record IsReport (e : AbciEvidence) (x : Evidence) : Type 0 where
  pub known : known_type e.evidence_type ≡ some x.evidence_type
  pub same_address : x.validator.address ≡ e.address
  pub same_power : e.power ≡ pos x.validator.power
  pub same_height : e.height ≡ pos x.height
  pub same_time : e.unix_time ≡ pos x.time
  pub same_total : e.total_voting_power ≡ pos x.total_voting_power

-- One report for each evidence of a known type, in order.
pub data Reported : List AbciEvidence → List Evidence → Type 0 where
  nothing : Reported [] []
  skipped :
      {e : AbciEvidence} {es : List AbciEvidence} {xs : List Evidence}
      → known_type e.evidence_type ≡ none
      → Reported es xs
      → Reported (e ∷ es) xs
  kept :
      {e : AbciEvidence} {es : List AbciEvidence} {x : Evidence} {xs : List Evidence}
      → IsReport e x
      → Reported es xs
      → Reported (e ∷ es) (x ∷ xs)

abbrev pub is_negative : ℤ → Bool
is_negative (pos n) = false
is_negative (negsuc n) = true

-- Evidence of a known type with a negative number.
abbrev pub is_malformed : AbciEvidence → Bool
is_malformed e =
    is_some (known_type e.evidence_type)
    && (is_negative e.power
        || is_negative e.height
        || is_negative e.unix_time
        || is_negative e.total_voting_power)

abbrev pub any_malformed : List AbciEvidence → Bool
any_malformed [] = false
any_malformed (e ∷ es) = is_malformed e || any_malformed es

abbrev Converts : EvidenceType → AbciEvidence → Outcome Evidence → Type 0
Converts t e (ok x) = (known_type e.evidence_type ≡ some t → IsReport e x)
Converts t e (err _) = ⊥
Converts t e panic = (known_type e.evidence_type ≡ some t → is_malformed e ≡ true)

convert-Converts : (t : EvidenceType) (e : AbciEvidence) → Converts t e (convert t e)
unfolding convert conv_uint64
convert-Converts t e = ground arith

abbrev Collects : List AbciEvidence → Outcome (List Evidence) → Type 0
Collects es (ok xs) = Reported es xs
Collects es (err _) = ⊥
Collects es panic = any_malformed es ≡ true

collect_evidence-Collects : (es : List AbciEvidence) → Collects es (collect_evidence es)
unfolding collect_evidence
collect_evidence-Collects [] = nothing
collect_evidence-Collects (e ∷ es) = elim (Option-cases (known_type e.evidence_type)) [
  | inl q ↦ rw (q, collect_evidence) (past (collect_evidence es) q (collect_evidence-Collects es))
  | inr (t, q) ↦
      rw (q, collect_evidence)
        (behind (convert t e) t q (convert-Converts t e) (collect_evidence es)
          (collect_evidence-Collects es))
]
  where
    past :
        (o : Outcome (List Evidence))
        → known_type e.evidence_type ≡ none
        → Collects es o
        → Collects (e ∷ es) o
    past (ok xs) q h = skipped q h
    past (err _) q h = elim h [ ]
    past panic q h = ground arith

    behind :
        (r : Outcome Evidence) (t : EvidenceType)
        → known_type e.evidence_type ≡ some t
        → Converts t e r
        → (o : Outcome (List Evidence)) → Collects es o
        → Collects (e ∷ es) (r >>= λ x. o >>= λ xs. ok (x ∷ xs))
    behind (ok x) t q c (ok xs) h = kept (c q) h
    behind (ok x) t q c (err _) h = elim h [ ]
    behind (ok x) t q c panic h = ground (arith, h)
    behind (err _) t q c o h = elim c [ ]
    behind panic t q c o h = ground (arith, c q)

module _ {W : Type 0} (c : Contracts W) where
  -- How the begin of a block ends.
  abbrev pub Begins : List AbciEvidence → State W → Outcome ⊤ × State W → Type 0
  Begins es s (ok _, s') =
      (xs : List Evidence) × (msg_bz : List ℕ) × Reported es xs
      × (c.marshal (SudoMsg.begin_block xs) ≡ some msg_bz)
      × Runs c msg_bz (privileged_contracts_by_type Privilege.begin_block s) s s'
  Begins es s (err _, s') = ⊥
  Begins es s (panic, s') =
      (s' ≡ s)
      × ((any_malformed es ≡ true)
          ⊎ ((xs : List Evidence) × Reported es xs × (c.marshal (SudoMsg.begin_block xs) ≡ none)))

  -- The begin of a block reports each evidence of a known type, in order and with its numbers, to the
  -- contracts that are registered for it, one after the other, and what a contract that fails or
  -- panics wrote is dropped. The callback itself panics only on evidence of a known type with a
  -- negative number or on a message without an encoding, and then it has written nothing.
  pub begin_blocker-Begins :
      (es : List AbciEvidence) (s : State W) → Begins es s (begin_blocker c es s)
  unfolding begin_blocker
  begin_blocker-Begins es s = go (collect_evidence es) refl (collect_evidence-Collects es)
    where
      sent :
          (xs : List Evidence) (r : Outcome ⊤ × State W)
          → Reported es xs
          → Sends c (SudoMsg.begin_block xs) Privilege.begin_block s r
          → Begins es s r
      sent xs (ok _, s') h (bz, e, runs) = (xs, bz, h, e, runs)
      sent xs (err _, s') h f = elim f [ ]
      sent xs (panic, s') h (e, same) = (same, inr (xs, h, e))

      go :
          (o : Outcome (List Evidence))
          → collect_evidence es ≡ o
          → Collects es o
          → Begins es s (begin_blocker c es s)
      go (ok xs) q h =
          rw (q, begin_blocker)
            (sent xs (send_all c (SudoMsg.begin_block xs) Privilege.begin_block s) h
              (send_all-Sends c (SudoMsg.begin_block xs) Privilege.begin_block s))
      go (err _) q h = elim h [ ]
      go panic q h = rw (q, begin_blocker) (refl, inl h)
