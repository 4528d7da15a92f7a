-- ===== src/Base/Bytes.antt =====
-- C memory as lists of bytes: little-endian words, arrays of words, and text.
use Prim.Native.Char.{code}
use Prim.Native.String.{String}
use Prim.Native.Nat.{ℕ, zero, suc, ◌+◌, ◌*◌, ◌/◌, ◌%◌, ◌^◌, ◌<◌}
use mathlib.Core.Path.{◌≡◌, refl, ap}
use mathlib.Core.List.{List, [], ◌∷◌, ◌++◌}
use native.Mathlib.Nat.{pow-suc}
use native.Mathlib.Omega.{arith}
use qdmi.Base.Lists.{length, length-append}

abbrev pub Bytes : Type 0
Bytes = List ℕ

-- The bytes of an ASCII literal, without the terminating NUL.
abbrev pub text : String → Bytes
text String.[] = []
text (String.◌∷◌ c s) = code c ∷ text s

-- An unsigned integer of w bytes in memory, low byte first.
unfoldable pub encode : ℕ → ℕ → Bytes
encode zero n = []
encode (suc w) n = (n % 256) ∷ encode w (n / 256)

unfoldable pub decode : Bytes → ℕ
decode [] = 0
decode (b ∷ bs) = b + 256 * decode bs

-- An array of such integers.
unfoldable pub encode_all : ℕ → List ℕ → Bytes
unfolding encode
encode_all w [] = []
encode_all w (n ∷ ns) = encode w n ++ encode_all w ns

pub length-encode : (w n : ℕ) → length (encode w n) ≡ w
unfolding encode
length-encode zero n = refl
length-encode (suc w) n = ap suc (length-encode w (n / 256))

pub decode-encode : (w n : ℕ) → n < 256 ^ w → decode (encode w n) ≡ n
unfolding decode encode
decode-encode zero n h = omega arith
decode-encode (suc w) n h = omega (arith, decode-encode w (n / 256) (omega (arith, pow-suc 256 w)))

pub length-encode_all : (w : ℕ) (ns : List ℕ) → length (encode_all w ns) ≡ length ns * w
unfolding encode_all
length-encode_all w [] = omega arith
length-encode_all w (n ∷ ns) =
    omega (
      arith,
      length-append (encode w n) (encode_all w ns),
      length-encode w n,
      length-encode_all w ns,
    )
