-- ===== src/Tests/Webhook.antt =====
-- An answer that asks to wait, and two deliveries with different keys.
use write_relay.Prelude.{◌≡◌, refl, false, some, none, [], ◌∷◌, codes, codes-injective}
use write_relay.Store.Queue.{Delivery}
use write_relay.Delivery.{Retry, Round}
use write_relay.Delivery.Webhook.{Library, key_text}
use write_relay.Delivery.Webhook.Key.{NoZero, key_text-injective}
use write_relay.Tests.Data.{item}

abbrev library : Library
library = record {
  utf8 = codes;
  sha256_hex = λ bytes. "digest";
  hmac_hex = λ secret bytes. "mac";
  decimal = λ n. n ∷ [];
  parse_int = λ s. some (false, 3);
  parse_time = λ s. none;
  failure_text = λ n. n ∷ [];
}

abbrev retry : Retry
retry = record { initial_delay = 5; max_delay = 100; max_attempts = 3 }

abbrev round : Round
round = record { now = 2000; at = 2001; cancelled = false }

hook_NoZero : NoZero (codes "hook")
hook_NoZero = (λ h. cc, (λ h. cc, (λ h. cc, (λ h. cc, tt))))

shop_NoZero : NoZero (codes "shop")
shop_NoZero = (λ h. cc, (λ h. cc, (λ h. cc, (λ h. cc, tt))))

abbrev again : Delivery
again = record item { attempts = 2 }

same_text : key_text library item ≡ key_text library again
unfolding key_text
same_text = refl

key_text-injective_example :
    (item.sink_name ≡ again.sink_name) × (item.source ≡ again.source) × (item.id ≡ again.id)
key_text-injective_example =
    key_text-injective library item again codes-injective hook_NoZero hook_NoZero shop_NoZero
      shop_NoZero same_text
