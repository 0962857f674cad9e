-- ===== src/Backend.antt =====
-- The state that the services share, and the way their methods run: a method takes the state,
-- may throw, and leaves a state behind.
pub mod Transactions
pub mod Lookup
use graffi_tab_backend.Prelude.{
  ℕ, ◌+◌, Bool, true, false, Option, none, some, List, [], ◌∷◌, ◌++◌, ◌≡◌, refl, ◌⊎◌, inl, inr,
}
use graffi_tab_backend.Prelude.Text.{Text}
use graffi_tab_backend.Errors.{Failure, Result, ok, err}
use graffi_tab_backend.Model.{Database}
use graffi_tab_backend.Model.Content.{NotificationKind, ActivityKind}

-- What `EmailService` is asked to send, with the address and the token of the link.
pub data Mail : Type 0 where
  welcome_external : Text → Mail
  welcome : Text → Text → Mail
  reset_password : Text → Text → Mail
  flag : ℕ → Mail

-- What `JobService` runs later.
pub data Job : Type 0 where
  add_notification : ℕ → NotificationKind → ℕ → Job
  add_activity : ℕ → ActivityKind → ℕ → Option Text → Option Text → Job
  parse_text : ℕ → Option Text → ℕ → Option ℕ → ℕ → Job

-- What `DatastoreService` is asked to do, under the key of an image.
pub data StoreCall : Type 0 where
  save_asset delete_asset : Text → StoreCall

pub record Backend : Type 0 where
  pub db : Database
  pub mails : List Mail
  pub jobs : List Job
  -- The images that wait for their processing, and the map of `AssetService` from a new image
  -- to the one that it replaced.
  pub asset_jobs : List Text
  pub previous_assets : List (Text × Text)
  pub store_calls : List StoreCall

abbrev pub Action : Type 0 → Type 0
Action A = Backend → Result A × Backend

module _ {A : Type 0} where
  abbrev pub pure : A → Action A
  pure a s = (ok a, s)

  abbrev pub throw : Failure → Action A
  throw e s = (err e, s)

  abbrev pub gets : (Database → A) → Action A
  gets f s = (ok (f s.db), s)

  abbrev pub or_throw : Option A → Failure → Action A
  or_throw none e s = (err e, s)
  or_throw (some a) e s = (ok a, s)

infixl 5 ◌>>=◌ ◌>>◌
abbrev pub ◌>>=◌ : {A B : Type 0} → Action A → (A → Action B) → Action B
◌>>=◌ m f s = let (r, s') = m s in elim r [ ok a ↦ f a s' | err e ↦ (err e, s') ]

abbrev pub ◌>>◌ : {A B : Type 0} → Action A → Action B → Action B
m >> k = m >>= λ _. k

-- `if (test) throw e;`
abbrev pub throw_if : Bool → Failure → Action (Unit {0})
throw_if true e s = (err e, s)
throw_if false e s = (ok tt, s)

abbrev pub modify : (Database → Database) → Action (Unit {0})
modify f s = (ok tt, record s { db = f s.db })

abbrev pub send : Mail → Action (Unit {0})
send m s = (ok tt, record s { mails = s.mails ++ m ∷ [] })

-- `jobService.execute(runnable)`: `queue.addLast`.
abbrev pub enqueue : Job → Action (Unit {0})
enqueue j s = (ok tt, record s { jobs = s.jobs ++ j ∷ [] })

-- `assetService.enqueueDeferredAssetProcessing(runnable)`
abbrev pub enqueue_asset : Text → Action (Unit {0})
enqueue_asset guid s = (ok tt, record s { asset_jobs = s.asset_jobs ++ guid ∷ [] })

-- `assetService.addPreviousAssetGuidMapping(newGuid, previousGuid)`; a guid is new once.
abbrev pub add_previous_asset : Text → Text → Action (Unit {0})
add_previous_asset new old s =
    (ok tt, record s { previous_assets = (new, old) ∷ s.previous_assets })

abbrev pub call_store : StoreCall → Action (Unit {0})
call_store c s = (ok tt, record s { store_calls = s.store_calls ++ c ∷ [] })

-- `if (test) action;`
abbrev pub when : Bool → Action (Unit {0}) → Action (Unit {0})
when true m s = m s
when false m s = (ok tt, s)

-- `test ? false : action`, for a conjunction that stops at its first part.
abbrev pub unless : Bool → Action Bool → Action Bool
unless true m s = (ok false, s)
unless false m s = m s

abbrev pub of_result : {A : Type 0} → Result A → Action A
of_result r s = (r, s)

-- How an action ends.
pub Result-cases :
    {A : Type 0} (x : Result A × Backend)
    → ((a : A) × (s : Backend) × (x ≡ (ok a, s)))
      ⊎ ((e : Failure) × (s : Backend) × (x ≡ (err e, s)))
Result-cases (ok a, s) = inl (a, s, refl)
Result-cases (err e, s) = inr (e, s, refl)
