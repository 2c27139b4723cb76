-- ===== src/Delivery/Webhook/Key.antt =====
-- The idempotency key tells deliveries apart.
use write_relay.Prelude.{ℕ, ◌≡◌, ◌≢◌, refl, String, List, [], ◌∷◌, ◌++◌, All}
use write_relay.Store.Queue.{Delivery}
use write_relay.Delivery.Webhook.{Library, key_text}

-- No byte is 0.
abbrev pub NoZero : List ℕ → Type 0
NoZero = All (λ c. c ≢ 0)

-- The first 0 ends the first part.
split_zero : (a b x y : List ℕ) → NoZero a → NoZero b → a ++ 0 ∷ x ≡ b ++ 0 ∷ y → (a ≡ b) × (x ≡ y)
split_zero [] [] x y ha hb h = (refl, cc h)
split_zero [] (c ∷ b) x y ha hb h = absurd (hb.0 (cc h))
split_zero (c ∷ a) [] x y ha hb h = absurd (ha.0 (cc h))
split_zero (c ∷ a) (d ∷ b) x y ha hb h =
    let rest = split_zero a b x y ha.1 hb.1 (cc h) in (cc (rest.0, h), rest.1)

-- If the encoding of texts is injective, and no name of a sink and no source contains the
-- character 0, two deliveries have the same key text only if their sinks, sources and ids are the
-- same.
pub key_text-injective :
    (lib : Library) (a b : Delivery)
    → ((s t : String) → lib.utf8 s ≡ lib.utf8 t → s ≡ t)
    → NoZero (lib.utf8 a.sink_name)
    → NoZero (lib.utf8 b.sink_name)
    → NoZero (lib.utf8 a.source)
    → NoZero (lib.utf8 b.source)
    → key_text lib a ≡ key_text lib b
    → (a.sink_name ≡ b.sink_name) × (a.source ≡ b.source) × (a.id ≡ b.id)
unfolding key_text
key_text-injective lib a b utf8 sa sb ca cb h =
    let (sink, rest) = split_zero (lib.utf8 a.sink_name) (lib.utf8 b.sink_name) _ _ sa sb h in
    let (source, id) = split_zero (lib.utf8 a.source) (lib.utf8 b.source) _ _ ca cb rest in
    (utf8 a.sink_name b.sink_name sink, utf8 a.source b.source source, utf8 a.id b.id id)
