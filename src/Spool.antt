-- ===== src/Spool.antt =====
-- internal/spool/spool.go: the records that pass between capture and the spool, and the errors of
-- the daemon as values. An error keeps its sentinel, which `errors.Is` reads, and not its message.
use write_relay.Prelude.{ℕ, String, ◌≡◌, refl, ◌⊎◌, inl, inr, Bool, true, false, List}

pub data Error : Type 0 where
  durability identity_conflict sink_conflict : Error
  protocol_state protected_event transaction_limit slot_mismatch unsupported_version : Error
  malformed oversized paused cancelled connection other : Error

pub data Result {ℓ} (Value : Type ℓ) : Type ℓ where
  err : Error → Result Value
  ok : Value → Result Value

-- `if !condition { return err }`
abbrev pub guard : (condition : Bool) (failure : Error) → Result (Unit {0})
guard false failure = err failure
guard true failure = ok tt

abbrev pub ◌>>=◌ {ℓ μ} :
    {From : Type ℓ} {To : Type μ} → Result From → (From → Result To) → Result To
err failure >>= rest = err failure
ok value >>= rest = rest value

abbrev pub ◌>>◌ {μ} : {To : Type μ} → Result (Unit {0}) → Result To → Result To
checked >> rest = checked >>= λ _. rest

infixl 5 ◌>>=◌ ◌>>◌
-- Bytes are numbers; an LSN is the number that its text stands for; times count nanoseconds.
pub record CapturedEvent : Type 0 where
  pub source : String
  pub id : String
  pub event_type : String
  pub subject : String
  pub payload : List ℕ
  pub payload_sha256 : List ℕ
  pub transaction_id : ℕ
  pub message_lsn : ℕ
  pub commit_lsn : ℕ
  pub commit_end_lsn : ℕ
  pub commit_time : ℕ
  pub message_index : ℕ

pub record CommittedBatch : Type 0 where
  pub transaction_id : ℕ
  pub commit_lsn : ℕ
  pub commit_end_lsn : ℕ
  pub commit_time : ℕ
  pub events : List CapturedEvent

pub record PersistResult : Type 0 where
  pub inserted : ℕ
  pub replayed : ℕ
  pub durable_lsn : ℕ

-- Inversion of a successful bind, for proofs where the parts stay shut.
pub >>=-eq-ok {ℓ μ} :
    {From : Type ℓ} {To : Type μ} (first : Result From) (rest : From → Result To) {last : To}
    → (first >>= rest) ≡ ok last
    → (value : From) × (first ≡ ok value) × (rest value ≡ ok last)
>>=-eq-ok (err failure) rest h = cc
>>=-eq-ok (ok value) rest h = (value, refl, h)

pub Result-cases {ℓ} :
    {A : Type ℓ} (r : Result A) → ((a : A) × (r ≡ ok a)) ⊎ ((e : Error) × (r ≡ err e))
Result-cases (ok a) = inl (a, refl)
Result-cases (err e) = inr (e, refl)

-- What holds of a value, if there is one.
abbrev pub Yields {ℓ κ} : {A : Type ℓ} → (A → Type κ) → Result A → Type κ
Yields P (err failure) = Unit
Yields P (ok value) = P value

pub Yields-ok {ℓ κ} :
    {A : Type ℓ} (P : A → Type κ) {r : Result A} {a : A} → r ≡ ok a → Yields P r → P a
Yields-ok P h holds = rw h at holds
