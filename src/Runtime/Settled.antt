-- ===== src/Runtime/Settled.antt =====
-- runtime.rs: `reconcile_pending_orders` counts an order that it settles by its fate.
use solana_bot.Prelude.{
  ℕ, ◌≡◌, refl, sym, ap, ◌∙◌, ◌<◌, true, false, Bool, none, some, String, Result, ok, err, arith,
  u32_max, inl, inr, Bool-cases, Option,
}
use solana_bot.Prelude.Decimal.{Decimal}
use solana_bot.Prelude.Chrono.{Chrono}
use solana_bot.Config.{Config}
use solana_bot.Domain.Trade.{OrderRecord, failed, expired}
use solana_bot.Execution.{
  ExecutionError, no_quote, stale_quote, invalid_quote, policy, unknown_outcome, transaction,
  unavailable,
}
use solana_bot.Storage.{Store, StorageError, Serde}
use solana_bot.Chain.{ChainSwapOutcome, Node, ChainTexts, reconcile_signature}
use solana_bot.Runtime.Types.{Failure, Formats}
use solana_bot.Runtime.Reconciled.{record_reconciled_fill}
use solana_bot.Runtime.Pending.{
  ReconcileSummary, one_failed, one_expired, one_unresolved, Site, Operator, older_than,
  settle_route, settle_match, updated_as, mark_order, counted_fill, after_signature, settle_pending,
}
use solana_bot.Runtime.Fates.{
  Fate, is_confirmed, is_failed, is_expired, is_unresolved, IsOneMore, accounted_for,
  one_confirmed-IsOneMore, one_failed-IsOneMore, one_expired-IsOneMore, one_unresolved-IsOneMore,
  IsExecuted, IsFate, IsCounted,
}

module _ {N J D T : Type 0} ⦃serde : Serde J D T⦄ ⦃d : Decimal D⦄ ⦃c : Chrono T⦄ ⦃node : Node N⦄
    ⦃texts : ChainTexts⦄ ⦃formats : Formats⦄ (config : Config D) (op : Operator T)
    (x : ReconcileSummary) (small : accounted_for x < u32_max) (order : OrderRecord D T)
    (site : Site N J T) (n' : N) where
  updated_as-IsCounted :
      (f : Fate) (after : ReconcileSummary) (r : Result StorageError (Unit {0}) × Store J T)
      → IsOneMore x after f
      → ((s : Store J T)
          → r ≡ (ok tt, s)
          → IsFate config op order site f (record { node = n'; store = s }))
      → IsCounted config op order site x (updated_as after r (record site { node = n' }))
  updated_as-IsCounted f after (ok tt, s) one fate = (f, one, fate s refl)
  updated_as-IsCounted f after (err e, s) one fate = tt

  failed-IsCounted :
      (text : String)
      → IsCounted config op order site x
          (mark_order order text failed op.times.written (one_failed x) (record site { node = n' }))
  unfolding mark_order
  failed-IsCounted text =
      updated_as-IsCounted is_failed (one_failed x) _ (one_failed-IsOneMore x small)
        (λ s stored. (text, stored))

  expired-IsCounted :
      (text : String)
      → older_than op.now order.created_at config.rpc.unknown_after_secs ≡ true
      → IsCounted config op order site x (
          mark_order order text expired op.times.written
            (one_expired x)
            (record site { node = n' }))
  unfolding mark_order
  expired-IsCounted text old =
      updated_as-IsCounted is_expired (one_expired x) _ (one_expired-IsOneMore x small)
        (λ s stored. ((text, stored), old))

  left-IsCounted :
      IsCounted config op order site x (ok (one_unresolved x), record site { node = n' })
  left-IsCounted = (is_unresolved, one_unresolved-IsOneMore x small, inl refl)

  counted_fill-IsCounted :
      (sig : String) (outcome : ChainSwapOutcome) (r : Result Failure Bool × Store J T)
      → IsExecuted op order site.node sig outcome
      → record_reconciled_fill config.economics.sol_price_usd order outcome sig op.times site.store
        ≡ r
      → IsCounted config op order site x (counted_fill config op x r (record site { node = n' }))
  counted_fill-IsCounted sig outcome (ok true, s) swap booked =
      (is_confirmed, one_confirmed-IsOneMore x small, (sig, outcome, swap, booked))
  counted_fill-IsCounted sig outcome (ok false, s) swap booked = (
    is_unresolved,
    one_unresolved-IsOneMore x small,
    inr (sig, outcome, swap, λ q. ground (arith, sym (ap (λ z. z.0) booked) ∙ q)),
  )
  counted_fill-IsCounted sig outcome (err e, s) swap booked = (
    is_unresolved,
    one_unresolved-IsOneMore x small,
    inr (sig, outcome, swap, λ q. ground (arith, sym (ap (λ z. z.0) booked) ∙ q)),
  )

  after_signature-IsCounted :
      (sig : String) (answer : Result ExecutionError (Option ChainSwapOutcome))
      → ((outcome : ChainSwapOutcome)
          → answer ≡ ok (some outcome)
          → IsExecuted op order site.node sig outcome)
      → IsCounted config op order site x
          (after_signature config op order sig x answer (record site { node = n' }))
  unfolding after_signature
  after_signature-IsCounted sig (ok (some outcome)) swap =
      counted_fill-IsCounted sig outcome _ (swap outcome refl) refl
  after_signature-IsCounted sig (ok none) swap =
      elim (Bool-cases (older_than op.now order.created_at config.rpc.unknown_after_secs)) [
        | inl old ↦ rw old (expired-IsCounted _ old)
        | inr young ↦ rw young (left-IsCounted)
      ]
  after_signature-IsCounted sig (err (transaction detail)) swap = failed-IsCounted detail
  after_signature-IsCounted sig (err (no_quote m)) swap = left-IsCounted
  after_signature-IsCounted sig (err stale_quote) swap = left-IsCounted
  after_signature-IsCounted sig (err invalid_quote) swap = left-IsCounted
  after_signature-IsCounted sig (err (policy m)) swap = left-IsCounted
  after_signature-IsCounted sig (err (unknown_outcome s m)) swap = left-IsCounted
  after_signature-IsCounted sig (err (unavailable m)) swap = left-IsCounted

module _ {N J D T : Type 0} ⦃serde : Serde J D T⦄ ⦃d : Decimal D⦄ ⦃c : Chrono T⦄ ⦃node : Node N⦄
    ⦃texts : ChainTexts⦄ ⦃formats : Formats⦄ (config : Config D) (op : Operator T)
    (x : ReconcileSummary) (small : accounted_for x < u32_max) (order : OrderRecord D T)
    (site : Site N J T) where
  settle_route-IsCounted :
      (sig : String) (owner input output : Option String) (expected : Option ℕ)
      → op.live ≡ true
      → order.signature ≡ some sig
      → op.owner ≡ owner
      → order.input_mint ≡ input
      → order.output_mint ≡ output
      → order.input_amount_atomic ≡ expected
      → IsCounted config op order site x
          (settle_route config op order sig x site owner input output expected)
  settle_route-IsCounted sig (some owner) (some input) (some output) (some n) l s o i u a =
      let answer = reconcile_signature site.node sig input output owner n in
      after_signature-IsCounted config op x small order site answer.1 sig answer.0
        (λ outcome answered. record {
          owner = owner;
          input = input;
          output = output;
          expected = n;
          is_live = l;
          signed = s;
          owned = o;
          input_known = i;
          output_known = u;
          amount_known = a;
          answered = answered;
        })
  settle_route-IsCounted sig none _ _ _ l s o i u a =
      left-IsCounted config op x small order site site.node
  settle_route-IsCounted sig (some owner) none _ _ l s o i u a =
      left-IsCounted config op x small order site site.node
  settle_route-IsCounted sig (some owner) (some input) none _ l s o i u a =
      left-IsCounted config op x small order site site.node
  settle_route-IsCounted sig (some owner) (some input) (some output) none l s o i u a =
      left-IsCounted config op x small order site site.node

  settle_match-IsCounted :
      (signature : Option String) (live : Bool)
      → order.signature ≡ signature
      → op.live ≡ live
      → IsCounted config op order site x (settle_match config op order x site signature live)
  settle_match-IsCounted none false s l = failed-IsCounted config op x small order site site.node _
  settle_match-IsCounted none true s l =
      elim (Bool-cases (older_than op.now order.created_at config.rpc.unknown_after_secs)) [
        | inl old ↦ rw old (failed-IsCounted config op x small order site site.node _)
        | inr young ↦ rw young (left-IsCounted config op x small order site site.node)
      ]
  settle_match-IsCounted (some sig) false s l =
      failed-IsCounted config op x small order site site.node _
  settle_match-IsCounted (some sig) true s l =
      settle_route-IsCounted sig op.owner order.input_mint order.output_mint
        order.input_amount_atomic l s refl refl refl refl

  -- One order that is settled is counted by its fate.
  pub settle_pending-IsCounted :
      IsCounted config op order site x (settle_pending config op order x site)
  unfolding settle_pending
  settle_pending-IsCounted = settle_match-IsCounted order.signature op.live refl refl
