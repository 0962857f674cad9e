-- ===== src/Backend/Transactions.antt =====
-- service/TransactionUtils.java over Spring's transaction template, which commits when the
-- body returns and rolls the database back when it throws. Mails and jobs are no part of it.
pub mod Responses
mod Tests
use graffi_tab_backend.Errors.{wrapped, Result, ok, err}
use graffi_tab_backend.Backend.{Action}

module _ {A : Type 0} where
  -- `executeInTransaction`, `executeInNewTransaction` and a `@Transactional` method.
  unfoldable pub in_transaction : Action A → Action A
  in_transaction m s =
      let (r, s') = m s in elim r [ ok a ↦ (ok a, s') | err e ↦ (err e, record s' { db = s.db }) ]

  -- `catch (Throwable t) { throw new RuntimeException(t); }`
  abbrev pub wrap_failure : Result A → Result A
  wrap_failure (ok a) = ok a
  wrap_failure (err e) = err (wrapped e)

  -- `executeInTransactionWithResult`
  unfoldable pub in_transaction_with_result : Action A → Action A
  unfolding in_transaction
  in_transaction_with_result m = in_transaction (λ s. let (r, s') = m s in (wrap_failure r, s'))
