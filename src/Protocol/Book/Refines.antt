-- ===== src/Protocol/Book/Refines.antt =====
-- The programs keep the book: their accounts, read as a book, change only by its entries.
use mathlib.Core.Path.{fun_ext}
use credmesh_solana.Prelude.{
  ℕ, ◌+◌, ◌-◌, ◌*◌, ◌≡◌, ◌∙◌, refl, ap, arith, Bool, true, not, Option, none, some, inl, inr,
  Bool-cases,
}
use credmesh_solana.Store.{
  Store, find, put, remove, IsMap, pair_eq, find-put, find-remove_ne, find-remove_self,
}
use credmesh_solana.Runtime.{is_free}
use credmesh_solana.Token.{TokenProgram}
use credmesh_solana.Escrow.State.{Advance, ConsumedPayment}
use credmesh_solana.Escrow.World.{World, AdvanceKey}
use credmesh_solana.Escrow.Pricing.Shares.{preview_deposit-quotient, preview_redeem-quotient}
use credmesh_solana.Escrow.Settlement.Tranches.{waterfall_conserves}
use credmesh_solana.Protocol.{Run, start, then_step}
use credmesh_solana.Protocol.Advances.{Sound}
use credmesh_solana.Protocol.Advances.Preserved.{run-Sound}
use credmesh_solana.Protocol.Effects.{
  Effect, of_deposit, of_withdrawal, of_request, of_settlement, of_liquidation, of_proposal,
  of_execution, of_skim, of_registry, of_others, step-Effect,
}
use credmesh_solana.Protocol.Book.{
  Book, at_key, cut_of, Entry, buys, sells, lends, is_repaid, writes_off, pays_fees, rests, Entries,
  no_entry, then_entry,
}

abbrev principal_if : Option Advance → Option ℕ
principal_if none = none
principal_if (some a) = some a.principal

-- The loans of the open advances, and the keys of the markers.
loans : Store AdvanceKey Advance → AdvanceKey → Option ℕ
loans s k = principal_if (find k s)

marks : Store AdvanceKey ConsumedPayment → AdvanceKey → Bool
marks s k = not (is_free (find k s))

loans-put :
    (key : AdvanceKey) (a : Advance) (s : Store AdvanceKey Advance)
    → loans (put key a s) ≡ at_key key (some a.principal) (loans s)
unfolding loans
loans-put key a s = fun_ext (λ k. elim (Bool-cases (pair_eq.beq k key)) [
  | inl e ↦ rw (find-put k key a s, e) refl
  | inr e ↦ rw (find-put k key a s, e) refl
])

loans-remove :
    (key : AdvanceKey) (s : Store AdvanceKey Advance)
    → IsMap s
    → loans (remove key s) ≡ at_key key none (loans s)
unfolding loans
loans-remove key s one = fun_ext (λ k. elim (Bool-cases (pair_eq.beq k key)) [
  | inl e ↦ rw (e, (pair_eq.beq_iff k key).0 e, find-remove_self key s one) refl
  | inr e ↦
      rw (e, find-remove_ne k key s (λ same. ground (arith, e, (pair_eq.beq_iff k key).1 same)))
        refl
])

marks-put :
    (key : AdvanceKey) (c : ConsumedPayment) (s : Store AdvanceKey ConsumedPayment)
    → marks (put key c s) ≡ at_key key true (marks s)
unfolding marks
marks-put key c s = fun_ext (λ k. elim (Bool-cases (pair_eq.beq k key)) [
  | inl e ↦ rw (find-put k key c s, e) refl
  | inr e ↦ rw (find-put k key c s, e) refl
])

loans-found :
    (key : AdvanceKey) (s : Store AdvanceKey Advance) {o : Option Advance}
    → find key s ≡ o
    → loans s key ≡ principal_if o
unfolding loans
loans-found key s h = ap principal_if h

marks-found :
    (key : AdvanceKey) (s : Store AdvanceKey ConsumedPayment) {o : Option ConsumedPayment}
    → find key s ≡ o
    → marks s key ≡ not (is_free o)
unfolding marks
marks-found key s h = ap (λ o. not (is_free o)) h

module _ (t : TokenProgram) where
  -- The accounts, read as a book.
  pub book : World t → Book
  book w = record {
    assets = w.pool.total_assets;
    shares = w.pool.total_shares;
    fees = w.pool.accrued_protocol_fees;
    lent = w.pool.deployed_amount;
    loan = loans w.advances;
    used = marks w.consumed;
  }

  -- What a step does to the accounts is an entry in the book.
  result-Entry : {w w' : World t} → Sound t w → Effect t w w' → Entry (book w) (book w')
  unfolding book
  result-Entry {w} {w'} s (of_deposit ctx amount ne d) =
      let quote =
        (preview_deposit-quotient amount w.pool.total_assets w.pool.total_shares d.priced).0 in
      buys amount d.amount_positive (rw quote d.shares_positive) (rw quote (ap book d.after))
  result-Entry {w} {w'} s (of_withdrawal ctx shares ne d) =
      let quote =
        (preview_redeem-quotient shares w.pool.total_assets w.pool.total_shares d.priced).0 in
      sells shares (rw quote d.assets_positive) d.shares_cover (rw quote d.assets_cover)
        (rw quote (ap book d.after))
  result-Entry {w} {w'} s (of_request sysvar now ctx l rid amount nonce ne p d) =
      lends (ctx.agent, rid) amount (omega (arith, d.large_enough))
        (marks-found _ w.consumed p.new_marker) (loans-found _ w.advances p.new_advance)
        d.deployed_le
        (ap book d.after
          ∙ rw (loans-put (ctx.agent, rid) _ w.advances, marks-put (ctx.agent, rid) _ w.consumed)
              refl)
  result-Entry {w} {w'} s (of_settlement sysvar now ctx l payment ne p d) =
      let earned = l.advance.fee_owed + d.late_days * l.advance.late_penalty_per_day in
      let (sum, lps, whole, cut) = waterfall_conserves _ _ _ _ _ d.split in
      let rest : d.cuts.lp_fee ≡ earned - cut_of earned = omega (arith, whole, cut) in
      is_repaid ctx.advance l.advance.principal earned (loans-found _ w.advances p.advance_found)
        d.deployed_covers
        (ap book d.after ∙ rw (loans-remove ctx.advance w.advances s.one_each, ← rest, ← cut) refl)
  result-Entry {w} {w'} s (of_liquidation now key d) =
      writes_off key d.a.principal (loans-found _ w.advances d.opened.advance_found)
        d.opened.deployed_covers d.assets_cover
        (ap book d.after ∙ rw (loans-remove key w.advances s.one_each) refl)
  result-Entry s (of_proposal sysvar now params d) = rests (ap book d.after)
  result-Entry s (of_execution now d) = rests (ap book d.after)
  result-Entry s (of_skim sysvar ctx amount d) = pays_fees amount d.accrued (ap book d.after)
  result-Entry s (of_registry registry change h) = rests (ap book h)
  result-Entry s (of_others bank received b o u h) = rests (ap book h)

  pub run-Entries : {w w' : World t} → Run t w w' → Sound t w → Entries (book w) (book w')
  run-Entries start s = no_entry
  run-Entries (then_step r h) s =
      then_entry (run-Entries r s) (result-Entry (run-Sound t r s) (step-Effect t h))
