-- ===== src/World.antt =====
-- What the services act on: the tables of the database, the records that the broker has stored,
-- and the answers of the environment. An action returns its result and the world that it leaves,
-- also when it fails. Each question to the environment (a SQL statement, `time.Now`, `uuid.New`,
-- a publication) is numbered by `step`, and the environment answers by that number: any statement
-- may fail, and two readings of the clock may differ.
mod State
pub mod Frames
pub mod Loops
use go_pet_project.Base.{
  ℕ, suc, Bool, Option, none, some, List, ◌==◌, if◌then◌else◌, ◌≡◌, ◌≢◌, ◌++◌, ◌∷◌, [],
}
use go_pet_project.Time.{Time}
use go_pet_project.Errors.{Error, Result, ok, err, database, publish, random}
use go_pet_project.Outbox.Envelope.{Record}
pub use State.*
use go_pet_project.Base.Text.{Text}

abbrev pub Action : Type 0 → Type 0
Action A = World → Result A × World

module _ {A : Type 0} where
  abbrev pub pure : A → Action A
  pure a w = (ok a, w)

  abbrev pub raise : Error → Action A
  raise e w = (err e, w)

  abbrev pub lift : Result A → Action A
  lift r w = (r, w)

  abbrev pub or_raise : Option A → Error → Action A
  or_raise none e = raise e
  or_raise (some a) e = pure a

  -- A value read from the tables.
  abbrev pub gets : (Tables → A) → Action A
  gets f w = (ok (f w.tables), w)

-- An `abbrev`, so that a bind computes as soon as the result of its first part is known.
abbrev pub continue : {A B : Type 0} → (A → Action B) → Result A → Action B
continue f (ok a) w = f a w
continue f (err e) w = (err e, w)

infixl 5 ◌>>=◌ ◌>>◌
abbrev pub ◌>>=◌ : {A B : Type 0} → Action A → (A → Action B) → Action B
◌>>=◌ m f w = let (r, w') = m w in continue f r w'

abbrev pub ◌>>◌ : {A B : Type 0} → Action A → Action B → Action B
m >> n = m >>= λ _. n

abbrev pub refuse_when : Bool → Error → Action (Unit {0})
refuse_when test e w = (if test then err e else ok tt, w)

abbrev pub modify : (Tables → Tables) → Action (Unit {0})
modify f w = (ok tt, record w { tables = f w.tables })

abbrev pub tick : World → World
tick w = record w { step = suc w.step }

-- A SQL statement is sent; the database may refuse it.
abbrev pub statement : Action (Unit {0})
statement w = (if w.env.statement_fails w.step then err database else ok tt, tick w)

-- The rows that SKIP LOCKED passes over in the statement that was sent last, by the next number.
abbrev pub locked_rows : Action (ℕ → Bool)
locked_rows w = (ok (w.env.locked w.step), w)

-- `time.Now().UTC()` and `uuid.New()`
abbrev pub now : Action Time
now w = (ok (w.env.clock w.step), tick w)

abbrev pub new_uuid : Action ℕ
new_uuid w = (ok (w.env.uuid w.step), tick w)

-- The base64 text of the bytes that `rand.Read` has filled.
abbrev pub random_token : Action Text
random_token w = or_raise (w.env.random_token w.step) random (tick w)

-- `hex.EncodeToString` of `sha256.Sum256`.
abbrev pub sha256_hex : Text → Action Text
sha256_hex s w = (ok (w.env.sha256_hex s), w)

abbrev pub chatted : Answer → Message → Action (Result (Unit {0}))
chatted acknowledged m w =
    (ok (ok tt), record w { messages = w.messages ++ m ∷ []; step = suc w.step })
chatted unacknowledged m w =
    (ok (err publish), record w { messages = w.messages ++ m ∷ []; step = suc w.step })
chatted refused m w = (ok (err publish), tick w)

-- `Send` of the Telegram sender; its error is looked at by the caller.
abbrev pub send_message : Message → Action (Result (Unit {0}))
send_message m w = chatted (w.env.chat w.step) m w

abbrev pub answered : Answer → Record → Action (Unit {0})
answered acknowledged r w = (ok tt, record w { topic = w.topic ++ r ∷ []; step = suc w.step })
answered unacknowledged r w =
    (err publish, record w { topic = w.topic ++ r ∷ []; step = suc w.step })
answered refused r w = (err publish, tick w)

-- `ProduceSync`: a record is sent to the broker.
abbrev pub produce : Record → Action (Unit {0})
produce r w = answered (w.env.broker w.step) r w

-- The result of an action as a value, where the code looks at an error instead of returning it.
abbrev pub attempt : {A : Type 0} → Action A → Action (Result A)
attempt m w = let (r, w') = m w in (ok r, w')

-- `for … { if err := act(…); err != nil { return err } }`
unfoldable pub for_each : {A : Type 0} → (A → Action (Unit {0})) → List A → Action (Unit {0})
for_each act [] = pure tt
for_each act (x ∷ xs) = let rest = for_each act xs in act x >> rest

abbrev pub rolled_back : World → World → World
rolled_back w w' = record w' { tables = w.env.rollback w.tables w'.tables }

-- COMMIT, which may fail; then the transaction is rolled back as well.
abbrev pub commit : {A : Type 0} → World → Result A → World → Result A × World
commit w (ok a) w' =
    if w'.env.statement_fails w'.step
    then (err database, rolled_back w (tick w'))
    else (ok a, tick w')
commit w (err e) w' = (err e, rolled_back w w')

-- `WithinTransaction` of internal/platform/database/transaction.go: BEGIN, the function, and
-- COMMIT, or ROLLBACK on an error.
unfoldable pub transaction : {A : Type 0} → Action A → Action A
transaction m w =
    if w.env.statement_fails w.step
    then (err database, tick w)
    else let (r, w') = m (tick w) in commit w r w'
