-- ===== src/Protocol/Replay.antt =====
-- The markers against replays: an advance is issued once, and ends once.
use credmesh_solana.Prelude.{
  ◌≡◌, ◌≢◌, refl, ap, sym, ◌∙◌, false, none, some, Option, arith, inl, inr, Bool-cases,
}
use credmesh_solana.Store.{
  Store, find, put, remove, nat_eq, pair_eq, find-put, find-remove_ne, find-remove_self,
}
use credmesh_solana.Runtime.{is_free}
use credmesh_solana.Token.{TokenProgram}
use credmesh_solana.Escrow.State.{Advance, ConsumedPayment}
use credmesh_solana.Escrow.World.{World, AdvanceKey}
use credmesh_solana.Escrow.RequestAdvance.Effects.{request_advance-Issued}
use credmesh_solana.Escrow.Settlement.Effects.{liquidate-Liquidated}
use credmesh_solana.Escrow.Settlement.Settle.{claim_and_settle-Settled}
use credmesh_solana.Protocol.{Step, requests, settles, liquidates, Run, start, then_step}
use credmesh_solana.Protocol.Effects.{
  Effect, of_deposit, of_withdrawal, of_request, of_settlement, of_liquidation, of_proposal,
  of_execution, of_skim, of_registry, of_others, step-Effect,
}
use credmesh_solana.Protocol.Advances.{Sound}

-- A write keeps what is found elsewhere, and a removal makes nothing found.
marker-put :
    (k key : AdvanceKey) (c : ConsumedPayment) (s : Store AdvanceKey ConsumedPayment)
    → is_free (find k s) ≡ false
    → is_free (find k (put key c s)) ≡ false
marker-put k key c s h = elim (Bool-cases (pair_eq.beq k key)) [
  | inl eq ↦ rw (find-put k key c s) (rw eq refl)
  | inr ne ↦ rw (find-put k key c s) (rw ne h)
]

gone-put :
    (k key : AdvanceKey) (a : Advance) (s : Store AdvanceKey Advance)
    → k ≢ key
    → find k s ≡ none
    → find k (put key a s) ≡ none
gone-put k key a s ne h = elim (Bool-cases (pair_eq.beq k key)) [
  | inl eq ↦ absurd (ne ((pair_eq.beq_iff k key).0 eq))
  | inr other ↦ rw (find-put k key a s) (rw other h)
]

some-inj : {a b : AdvanceKey} → some a ≡ some b → a ≡ b
some-inj h = ground arith

module _ (t : TokenProgram) where
  -- The advance at the seeds was issued and has ended.
  pub record Gone (key : AdvanceKey) (w : World t) : Type 0 where
    pub closed : find key w.advances ≡ none
    pub marked : is_free (find key w.consumed) ≡ false

  -- What an instruction does to the open advances and their markers.
  pub data Change (w w' : World t) : Type 0 where
    still : w'.advances ≡ w.advances → w'.consumed ≡ w.consumed → Change w w'
    opens :
        (key : AdvanceKey) (a : Advance) (c : ConsumedPayment)
        → find key w.consumed ≡ none
        → w'.advances ≡ put key a w.advances
        → w'.consumed ≡ put key c w.consumed
        → Change w w'
    ends :
        (key : AdvanceKey) (a : Advance)
        → find key w.advances ≡ some a
        → w'.advances ≡ remove key w.advances
        → w'.consumed ≡ w.consumed
        → Change w w'

  pub result-Change : {w w' : World t} → Effect t w w' → Change w w'
  result-Change (of_deposit ctx amount ne d) =
      still (ap (λ x. x.advances) d.after) (ap (λ x. x.consumed) d.after)
  result-Change (of_withdrawal ctx shares ne d) =
      still (ap (λ x. x.advances) d.after) (ap (λ x. x.consumed) d.after)
  result-Change (of_request sysvar now ctx l rid amount nonce ne p d) =
      opens (ctx.agent, rid) _ _ p.new_marker (ap (λ x. x.advances) d.after)
        (ap (λ x. x.consumed) d.after)
  result-Change (of_settlement sysvar now ctx l payment ne p d) =
      ends ctx.advance l.advance p.advance_found (ap (λ x. x.advances) d.after)
        (ap (λ x. x.consumed) d.after)
  result-Change (of_liquidation now key d) =
      ends key d.a (d.opened.advance_found) (ap (λ x. x.advances) d.after)
        (ap (λ x. x.consumed) d.after)
  result-Change (of_proposal sysvar now params d) =
      still (ap (λ x. x.advances) d.after) (ap (λ x. x.consumed) d.after)
  result-Change (of_execution now d) =
      still (ap (λ x. x.advances) d.after) (ap (λ x. x.consumed) d.after)
  result-Change (of_skim sysvar ctx amount d) =
      still (ap (λ x. x.advances) d.after) (ap (λ x. x.consumed) d.after)
  result-Change (of_registry registry change h) =
      still (ap (λ x. x.advances) h) (ap (λ x. x.consumed) h)
  result-Change (of_others bank received b o u h) =
      still (ap (λ x. x.advances) h) (ap (λ x. x.consumed) h)

  stays_marked :
      {w w' : World t} (k : AdvanceKey)
      → Change w w'
      → is_free (find k w.consumed) ≡ false
      → is_free (find k w'.consumed) ≡ false
  stays_marked k (still a c) m = rw c m
  stays_marked {w} k (opens key a c free ea ec) m = rw ec (marker-put k key c w.consumed m)
  stays_marked k (ends key a found ea ec) m = rw ec m

  pub stays-Gone : {w w' : World t} (k : AdvanceKey) → Change w w' → Gone k w → Gone k w'
  stays-Gone k (still a c) g = record { closed = rw a g.closed; marked = rw c g.marked }
  stays-Gone {w} k (opens key a c free ea ec) g = record {
    closed = rw ea (gone-put k key a w.advances (λ e. ground (arith, e, free, g.marked)) g.closed);
    marked = rw ec (marker-put k key c w.consumed g.marked);
  }
  stays-Gone {w} k (ends key a found ea ec) g = record {
    closed =
        rw ea
          (find-remove_ne k key w.advances (λ e. ground (arith, e, found, g.closed)) ∙ g.closed);
    marked = rw ec g.marked;
  }

  run-marked :
      {w w' : World t} (k : AdvanceKey)
      → Run t w w'
      → is_free (find k w.consumed) ≡ false
      → is_free (find k w'.consumed) ≡ false
  run-marked k start m = m
  run-marked k (then_step r h) m =
      stays_marked k (result-Change (step-Effect t h)) (run-marked k r m)

  run-Gone : {w w' : World t} (k : AdvanceKey) → Run t w w' → Gone k w → Gone k w'
  run-Gone k start g = g
  run-Gone k (then_step r h) g = stays-Gone k (result-Change (step-Effect t h)) (run-Gone k r g)

  -- The advance that a step issues, and the one that it settles or liquidates.
  abbrev pub issues_at : {w w' : World t} → Step t w w' → Option AdvanceKey
  issues_at (requests sysvar now ctx receivable_id amount nonce e ne h) =
      some (ctx.agent, receivable_id)
  issues_at _ = none

  abbrev pub ends_at : {w w' : World t} → Step t w w' → Option AdvanceKey
  ends_at (settles sysvar now ctx payment e ne h) = some (ctx.advance)
  ends_at (liquidates now key bump e h) = some key
  ends_at _ = none

  issued-marked :
      {w w' : World t} (k : AdvanceKey) (s : Step t w w')
      → issues_at s ≡ some k
      → (find k w.consumed ≡ none) × (is_free (find k w'.consumed) ≡ false)
  issued-marked {w} {w'} k (requests sysvar now ctx rid amount nonce e ne h) same =
      let (l, p, d) = request_advance-Issued t sysvar now ctx rid amount nonce w h in
      let marked = ap (λ x. x.consumed) d.after in
      rw (sym (some-inj same)) (
        p.new_marker,
        rw (marked, find-put (ctx.agent, rid) (ctx.agent, rid) _ w.consumed)
            (rw ((pair_eq.beq_iff (ctx.agent, rid) (ctx.agent, rid)).1 refl) refl),
      )
  issued-marked k _ same = ground arith

  ended-found :
      {w w' : World t} (k : AdvanceKey) (s : Step t w w')
      → ends_at s ≡ some k
      → (a : Advance) × (find k w.advances ≡ some a)
        × (w'.advances ≡ remove k w.advances)
        × (w'.consumed ≡ w.consumed)
  ended-found {w} {w'} k (settles sysvar now ctx payment e ne h) same =
      let (l, p, d) = claim_and_settle-Settled t sysvar now ctx payment w h in
      rw (sym (some-inj same))
        (l.advance, p.advance_found, ap (λ x. x.advances) d.after, ap (λ x. x.consumed) d.after)
  ended-found {w} {w'} k (liquidates now key bump e h) same =
      let d = liquidate-Liquidated t now key bump w h in
      rw (sym (some-inj same))
        (d.a, d.opened.advance_found, ap (λ x. x.advances) d.after, ap (λ x. x.consumed) d.after)
  ended-found k _ same = ground arith

  -- An advance is issued once: after a request for an agent and a receivable id has succeeded, no later
  -- step of the run is a request for them that succeeds, whatever the nonce, the amount and the
  -- attestation are, and also when the advance has ended.
  pub issue-once :
      (w w' later last : World t) (k : AdvanceKey) (s : Step t w w')
      → issues_at s ≡ some k
      → Run t w' later
      → (s' : Step t later last) → issues_at s' ≢ some k
  issue-once w w' later last k s issued r s' again =
      let marked = run-marked k r (issued-marked k s issued).1 in
      ground (arith, marked, (issued-marked k s' again).0)

  -- An advance ends once: after a settlement or a liquidation of it from sound accounts, no later step of
  -- the run settles or liquidates it.
  pub end-once :
      (w w' later last : World t) (k : AdvanceKey) (s : Step t w w')
      → Sound t w
      → ends_at s ≡ some k
      → Run t w' later
      → (s' : Step t later last) → ends_at s' ≢ some k
  end-once w w' later last k s sound ended r s' again =
      let (a, found, removed, kept) = ended-found k s ended in
      let gone : Gone k w' = record {
        closed = rw removed (find-remove_self k w.advances sound.one_each);
        marked = rw kept (sound.marked k (rw found refl));
      } in
      let (a', found', removed', kept') = ended-found k s' again in
      ground (arith, found', (run-Gone k r gone).closed)
