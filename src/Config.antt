-- ===== src/Config.antt =====
-- pkg/db/metrics.go, pkg/config and the addresses of pkg/spec: what the user configures.
pub mod Metrics
pub mod Address
pub mod Analyzer
pub mod Window
use Prim.Native.Char.{code}
use Prim.Native.String.{String}
use goteth.Common.{ℕ, ◌≡◌, Bool, true, false, ◌&&◌, List, [], ◌∷◌, ◌==◌, if◌then◌else◌}

-- The code points of a text.
abbrev pub codes : String → List ℕ
codes String.[] = []
codes (String.◌∷◌ c s) = code c ∷ codes s

abbrev pub same_codes : List ℕ → List ℕ → Bool
same_codes [] [] = true
same_codes [] (_ ∷ _) = false
same_codes (_ ∷ _) [] = false
same_codes (x ∷ xs) (y ∷ ys) = (x == y) && same_codes xs ys

-- `==` of two texts.
abbrev pub same_text : String → String → Bool
same_text s t = same_codes (codes s) (codes t)
