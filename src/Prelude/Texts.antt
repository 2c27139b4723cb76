-- ===== src/Prelude/Texts.antt =====
-- A text as the list of its code points.
use Prim.Native.Char.{code}
use Prim.Native.String.{String, [] as empty_text, ◌∷◌ as ◌then_text◌}
use mathlib.Core.Path.{◌≡◌, refl}
use mathlib.Core.List.{List, [], ◌∷◌}
use text.Mathlib.TextEquality.{Char-path}
use Prim.Native.Nat.{ℕ}

abbrev pub codes : String → List ℕ
codes empty_text = []
codes (c then_text s) = code c ∷ codes s

pub codes-injective : (s t : String) → codes s ≡ codes t → s ≡ t
codes-injective empty_text empty_text h = refl
codes-injective empty_text (d then_text t) h = cc h
codes-injective (c then_text s) empty_text h = cc h
codes-injective (c then_text s) (d then_text t) h =
    let same : c ≡ d = Char-path c d (cc h) in
    let rest : s ≡ t = codes-injective s t (cc h) in λ i. same i then_text rest i
