-- ===== src/Protocol/Advances/Changes.antt =====
-- The invariant of the open advances under each change that an instruction makes.
use credmesh_solana.Prelude.{
  ℕ, ◌+◌, ◌-◌, ◌≤◌, ◌≡◌, refl, sym, false, none, some, arith, ◌==◌, ==_iff, inl, inr, Bool-cases,
  if◌then◌else◌,
}
use credmesh_solana.Store.{
  Store, find, put, remove, IsMap, nat_eq, pair_eq, find-put, find-remove_ne, find-remove_self,
  put-IsMap, remove-IsMap, sum-put_new, sum-remove,
}
use credmesh_solana.Token.{TokenProgram}
use credmesh_solana.Runtime.{is_free}
use credmesh_solana.Escrow.State.{Advance, ConsumedPayment, AgentIssuanceLedger}
use credmesh_solana.Escrow.World.{World, AdvanceKey}
use credmesh_solana.Escrow.RequestAdvance.{ledger_or_zero}
use credmesh_solana.Protocol.Advances.{Sound, principal_at, principal_of, live_principal_of}

-- The ledger found after a write, in the numbers of the sums.
found-put :
    (agent holder : ℕ) (l : AgentIssuanceLedger) (s : Store ℕ AgentIssuanceLedger)
    → (ledger_or_zero (find agent (put holder l s))).live_principal ≡ (
        if agent == holder
        then l.live_principal
        else (ledger_or_zero (find agent s)).live_principal)
found-put agent holder l s = ground (arith, find-put agent holder l s)

module _ (advances : Store AdvanceKey Advance) (consumed : Store AdvanceKey ConsumedPayment) where
  abbrev Marked : AdvanceKey → Type 0
  Marked k = is_free (find k advances) ≡ false → is_free (find k consumed) ≡ false

  mark_after_put :
      (k key : AdvanceKey) (a : Advance) (c : ConsumedPayment)
      → Marked k
      → is_free (find k (put key a advances)) ≡ false
      → is_free (find k (put key c consumed)) ≡ false
  mark_after_put k key a c m =
      rw (find-put k key a advances, find-put k key c consumed)
        (elim (Bool-cases (pair_eq.beq k key)) [
          | inl eq ↦ λ h. rw eq refl
          | inr ne ↦ λ h. rw ne (m (ground (arith, h, ne)))
        ])

  mark_after_remove :
      (k key : AdvanceKey)
      → IsMap advances
      → Marked k
      → is_free (find k (remove key advances)) ≡ false
      → is_free (find k consumed) ≡ false
  mark_after_remove k key one m h = elim (Bool-cases (pair_eq.beq k key)) [
    | inl eq ↦
        let same = (pair_eq.beq_iff k key).0 eq in
        absurd (ground (arith, h, same, find-remove_self key advances one))
    | inr ne ↦ m (
        rw
          (sym
            (find-remove_ne k key advances (λ e. ground (arith, ne, (pair_eq.beq_iff k key).1 e))))
          h)
  ]

module _ (t : TokenProgram) where
  -- An instruction that changes no advance, marker or ledger, and no deployed principal.
  pub still-Sound :
      (w w' : World t)
      → Sound t w
      → w'.advances ≡ w.advances
      → w'.consumed ≡ w.consumed
      → w'.ledgers ≡ w.ledgers
      → w'.pool.deployed_amount ≡ w.pool.deployed_amount
      → Sound t w'
  still-Sound w w' s a c l d = record {
    one_each = rw a s.one_each;
    deployed = rw (d, a) s.deployed;
    live = rw (l, a) s.live;
    marked = rw (a, c) s.marked;
  }

  -- A new advance.
  pub issue-Sound :
      (w w' : World t) (key : AdvanceKey) (a : Advance) (c : ConsumedPayment)
      (l : AgentIssuanceLedger)
      → Sound t w
      → find key w.advances ≡ none
      → l.live_principal ≡ live_principal_of t key.0 w + a.principal
      → w'.advances ≡ put key a w.advances
      → w'.consumed ≡ put key c w.consumed
      → w'.ledgers ≡ put key.0 l w.ledgers
      → w'.pool.deployed_amount ≡ w.pool.deployed_amount + a.principal
      → Sound t w'
  issue-Sound w w' key a c l s free grown ea ec el ed = record {
    one_each = rw ea (put-IsMap key a w.advances s.one_each);
    deployed = rw (ed, ea, sum-put_new principal_at key a w.advances free, s.deployed);
    live = λ agent.
        let after = found-put agent key.0 l w.ledgers in
        let total = sum-put_new (principal_of agent) key a w.advances free in
        let before = s.live agent in
        rw (el, ea) (ground (arith, ==_iff agent key.0, ==_iff key.0 agent, after, total, before));
    marked = λ k. rw (ea, ec) (mark_after_put w.advances w.consumed k key a c (s.marked k));
  }

  -- An advance that ends.
  pub close-Sound :
      (w w' : World t) (key : AdvanceKey) (a : Advance) (l : AgentIssuanceLedger)
      → Sound t w
      → find key w.advances ≡ some a
      → a.agent ≡ key.0
      → find a.agent w.ledgers ≡ some l
      → a.principal ≤ l.live_principal
      → w'.advances ≡ remove key w.advances
      → w'.consumed ≡ w.consumed
      → w'.ledgers
        ≡ put a.agent (record l { live_principal = l.live_principal - a.principal }) w.ledgers
      → w'.pool.deployed_amount ≡ w.pool.deployed_amount - a.principal
      → Sound t w'
  close-Sound w w' key a l s open_ seed found covers ea ec el ed = record {
    one_each = rw ea (remove-IsMap key w.advances s.one_each);
    deployed =
        rw (ed, ea)
          (omega (arith, s.deployed, sum-remove principal_at key {v = a} w.advances open_));
    live = λ agent.
        let after =
          found-put agent a.agent (record l { live_principal = l.live_principal - a.principal })
            w.ledgers in
        let total = sum-remove (principal_of agent) key {v = a} w.advances open_ in
        let before = s.live agent in
        rw (el, ea)
          (ground (
            arith,
            ==_iff agent key.0,
            ==_iff key.0 agent,
            ==_iff agent a.agent,
            after,
            total,
            before,
            found,
            seed,
          ));
    marked =
        λ k. rw (ea, ec) (mark_after_remove w.advances w.consumed k key s.one_each (s.marked k));
  }
