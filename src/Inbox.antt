-- ===== src/Inbox.antt =====
-- sdk/go/inbox.go: the receiver's inbox, which commits a delivery's key together with the effects of
-- its handler. The database holds the receipts and whatever the handler writes; what can go wrong
-- in a call is given by a `Session`. Texts are bytes.
pub mod Once
use write_relay.Prelude.{
  ℕ, zero, suc, ◌+◌, Bool, true, false, not, ◌&&◌, ◌||◌, Option, none, some, List, [], ◌∷◌, ◌++◌,
  ltb, leb, ◌==◌, all, find, length, if◌then◌else◌, bytes_eq,
}

pub data Error : Type 0 where
  invalid_delivery inbox_conflict inbox_transaction database handler cancelled : Error

pub data Result {ℓ} (Value : Type ℓ) : Type ℓ where
  err : Error → Result Value
  ok : Value → Result Value

-- `if !condition { return err }`
abbrev pub guard : (condition : Bool) (failure : Error) → Result (Unit {0})
guard false failure = err failure
guard true failure = ok tt

abbrev pub ◌>>=◌ {ℓ μ} :
    {From : Type ℓ} {To : Type μ} → Result From → (From → Result To) → Result To
err failure >>= rest = err failure
ok value >>= rest = rest value

abbrev pub ◌>>◌ {μ} : {To : Type μ} → Result (Unit {0}) → Result To → Result To
checked >> rest = checked >>= λ _. rest

infixl 5 ◌>>=◌ ◌>>◌
pub record InboxTable : Type 0 where
  pub schema : List ℕ
  pub table : List ℕ

pub record InboxDelivery : Type 0 where
  pub inbox_table : InboxTable
  pub key : List ℕ
  pub body : List ℕ

pub data InboxResult : Type 0 where
  processed duplicate : InboxResult

abbrev is_between : ℕ → ℕ → ℕ → Bool
is_between lo hi c = leb lo c && leb c hi

-- `^[a-f0-9]{64}$`
is_hex : ℕ → Bool
is_hex c = is_between b'a' b'f' c || is_between b'0' b'9' c

unfoldable pub is_inbox_key : List ℕ → Bool
unfolding is_hex
is_inbox_key key = length key == 64 && all is_hex key

-- `^[A-Za-z_][A-Za-z0-9_]{0,62}$`
is_letter : ℕ → Bool
is_letter c = (is_between b'A' b'Z' c || is_between b'a' b'z' c) || c == b'_'

unfoldable pub is_inbox_identifier : List ℕ → Bool
unfolding is_letter
is_inbox_identifier [] = false
is_inbox_identifier (c ∷ cs) =
    is_letter c && (all (λ d. is_letter d || is_between b'0' b'9' d) cs && leb (length cs) 62)

abbrev pub default_schema : List ℕ
default_schema = b'p' ∷ b'u' ∷ b'b' ∷ b'l' ∷ b'i' ∷ b'c' ∷ []

-- writerelay_inbox
abbrev pub default_table : List ℕ
default_table =
    b'w' ∷ b'r' ∷ b'i' ∷ b't' ∷ b'e' ∷ b'r' ∷ b'e' ∷ b'l' ∷ b'a' ∷ b'y' ∷ b'_' ∷ b'i' ∷ b'n' ∷ b'b'
    ∷ b'o' ∷ b'x' ∷ []

abbrev pub or_default : List ℕ → List ℕ → List ℕ
or_default d [] = d
or_default d (c ∷ cs) = c ∷ cs

abbrev pub quoted : List ℕ → List ℕ
quoted name = 0x22 ∷ (name ++ 0x22 ∷ [])

unfoldable pub table_name : InboxTable → Result (List ℕ)
table_name t = do
  let schema = or_default default_schema t.schema
  let table = or_default default_table t.table
  guard (is_inbox_identifier schema && is_inbox_identifier table) invalid_delivery
  ok (quoted schema ++ (b'.' ∷ quoted table))

abbrev pub is_empty : List ℕ → Bool
is_empty [] = true
is_empty (c ∷ cs) = false

-- `sha256_hex` is the digest in hexadecimal.
unfoldable pub prepare_inbox : (List ℕ → List ℕ) → InboxDelivery → Bool → Result (List ℕ × List ℕ)
prepare_inbox sha256_hex d has_handler = do
  guard (is_inbox_key d.key && (not (is_empty d.body) && has_handler)) invalid_delivery
  name ← table_name d.inbox_table
  ok (name, sha256_hex d.body)

-- The database: the receipts of the inbox table, newest first, and what the handlers wrote.
pub record Database {ℓ} (A : Type ℓ) : Type ℓ where
  pub receipts : List (List ℕ × List ℕ)
  pub effects : A

-- `lost` is a commit that took place and whose answer did not arrive. Each of the three is of a transaction
-- that is not aborted: the commit of an aborted one is a rollback, which database/sql does not report.
pub data Commit : Type 0 where
  committed refused lost : Commit

-- What one call meets: whether each statement succeeds, whether the receipt of a conflict can
-- still be read, whether the handler returns nil, and whether the context is cancelled.
pub record Session : Type 0 where
  pub insert_ok : Bool
  pub read_ok : Bool
  pub receipt_kept : Bool
  pub handler_ok : Bool
  pub cancelled : Bool
  pub alive : Bool
  pub commit : Commit

unfoldable pub find_receipt : List ℕ → List (List ℕ × List ℕ) → Option (List ℕ)
find_receipt key [] = none
find_receipt key ((k, digest) ∷ rest) =
    if bytes_eq k key then some digest else find_receipt key rest

module _ {ℓ} {A : Type ℓ} where
  -- What the commit leaves of the database and reports, by whether the transaction is alive or aborted.
  unfoldable pub commit_transaction :
      Session → Database A → Database A → InboxResult → Database A × Result InboxResult
  commit_transaction s db tx result = if not s.alive then (db, ok result) else elim s.commit [
    | committed ↦ (tx, ok result)
    | refused ↦ (db, err database)
    | lost ↦ (tx, err database)
  ]

  -- The end of `runInbox`: the context, `SELECT 1`, and the commit of the transaction's state.
  unfoldable pub finish :
      Session → Database A → Database A → InboxResult → Database A × Result InboxResult
  finish s db tx result =
      if s.cancelled
      then (db, err cancelled)
      else if not s.alive
      then (db, err database)
      else commit_transaction s db tx result

  -- The two rows-affected cases of the INSERT: 1 if the key was free, and 0 with the receipt there.
  unfoldable pub after_insert :
      Session
      → List ℕ
      → List ℕ
      → (A → A)
      → Database A
      → Option (List ℕ)
      → Database A × Result InboxResult
  after_insert s key digest handle db none =
      if not s.handler_ok
      then (db, err handler)
      else finish s db
          (record { receipts = (key, digest) ∷ db.receipts; effects = handle db.effects }) processed
  after_insert s key digest handle db (some previous) =
      if not s.receipt_kept
      then (db, err inbox_transaction)
      else if not s.read_ok
      then (db, err database)
      else if not (bytes_eq previous digest)
      then (db, err inbox_conflict)
      else finish s db db duplicate

  unfoldable pub run_inbox :
      Session → List ℕ → List ℕ → (A → A) → Database A → Database A × Result InboxResult
  run_inbox s key digest handle db =
      if not s.insert_ok
      then (db, err database)
      else after_insert s key digest handle db (find_receipt key db.receipts)

  abbrev run_prepared :
      Session
      → InboxDelivery
      → (A → A)
      → Database A
      → Result (List ℕ × List ℕ)
      → Database A × Result InboxResult
  run_prepared s d handle db (err e) = (db, err e)
  run_prepared s d handle db (ok (name, digest)) = run_inbox s d.key digest handle db

  -- `WithInbox` and `WithInboxSQL`: whether the handler and the pool are there, and whether the
  -- transaction begins.
  unfoldable pub with_inbox :
      (List ℕ → List ℕ)
      → Session
      → InboxDelivery
      → Bool
      → Bool
      → Bool
      → (A → A)
      → Database A
      → Database A × Result InboxResult
  with_inbox sha256_hex s d has_handler has_pool begin_ok handle db = run_prepared s d handle db (do
    p ← prepare_inbox sha256_hex d has_handler
    guard has_pool invalid_delivery
    guard begin_ok database
    ok p)
