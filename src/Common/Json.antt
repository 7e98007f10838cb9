-- ===== src/Common/Json.antt =====
-- `json.dumps(value, sort_keys=True, separators=(",", ":"))` on objects whose keys are written in
-- sorted order, and its ASCII bytes.
use Prim.Native.Char.{code}
use Prim.Native.String.{String}
use Prim.Native.Nat.{ℕ, zero, suc, ◌+◌, ◌-◌, ◌/◌, ◌%◌}
use mathlib.Core.Path.{◌≡◌, refl}
use mathlib.Core.Bool.{Bool, true, false, ◌&&◌, ◌||◌}
use mathlib.Core.Option.{Option, none, some}
use mathlib.Core.List.{List, [], ◌∷◌, ◌++◌}
use recursive_self_improveme.Common.Tests.{ltb, leb, ◌==◌, if◌then◌else◌}

abbrev pub Bytes : Type 0
Bytes = List ℕ

-- The code points of a text.
unfoldable pub codes : String → List ℕ
codes String.[] = []
codes (String.◌∷◌ c s) = code c ∷ codes s

-- `str.isspace` of one character.
unfoldable pub is_space : ℕ → Bool
is_space c =
    leb 9 c && leb c 13
    || leb 28 c && leb c 32
    || c == 133
    || c == 160
    || c == 5760
    || leb 8192 c && leb c 8202
    || c == 8232
    || c == 8233
    || c == 8239
    || c == 8287
    || c == 12288

mutual
  pub data Json : Type 0 where
    null : Json
    boolean : Bool → Json
    num : ℕ → Json
    str : String → Json
    arr : Items → Json
    obj : Fields → Json

  pub data Items : Type 0 where
    nil : Items
    cons : Json → Items → Items

  pub data Fields : Type 0 where
    end : Fields
    field : String → Json → Fields → Fields

hex_digit : ℕ → ℕ
hex_digit d = if ltb d 10 then b'0' + d else b'a' + (d - 10)

-- `\uXXXX`
unicode_escape : ℕ → List ℕ
unfolding hex_digit
unicode_escape c =
    b'\\'
    ∷ b'u'
    ∷ hex_digit (c / 4096 % 16)
    ∷ hex_digit (c / 256 % 16)
    ∷ hex_digit (c / 16 % 16)
    ∷ hex_digit (c % 16)
    ∷ []

-- `ensure_ascii`: a code point above the basic plane is written as a surrogate pair.
escape : ℕ → List ℕ
unfolding unicode_escape
escape c =
    if c == 34
    then b'\\' ∷ 34 ∷ []
    else if c == 92
    then b'\\' ∷ b'\\' ∷ []
    else if c == 10
    then b'\\' ∷ b'n' ∷ []
    else if c == 13
    then b'\\' ∷ b'r' ∷ []
    else if c == 9
    then b'\\' ∷ b't' ∷ []
    else if c == 8
    then b'\\' ∷ b'b' ∷ []
    else if c == 12
    then b'\\' ∷ b'f' ∷ []
    else if ltb c 32 || (ltb 126 c && ltb c 65536)
    then unicode_escape c
    else if leb 65536 c
    then unicode_escape (55296 + (c - 65536) / 1024) ++ unicode_escape (56320 + (c - 65536) % 1024)
    else c ∷ []

escape_all : List ℕ → List ℕ
unfolding escape
escape_all [] = []
escape_all (c ∷ cs) = escape c ++ escape_all cs

quote : String → List ℕ
unfolding escape_all codes
quote s = 34 ∷ escape_all (codes s) ++ 34 ∷ []

-- The UTF-8 bytes of a code point.
utf8 : ℕ → List ℕ
utf8 c =
    if ltb c 128
    then c ∷ []
    else if ltb c 2048
    then (192 + c / 64) ∷ (128 + c % 64) ∷ []
    else if ltb c 65536
    then (224 + c / 4096) ∷ (128 + c / 64 % 64) ∷ (128 + c % 64) ∷ []
    else (240 + c / 262144) ∷ (128 + c / 4096 % 64) ∷ (128 + c / 64 % 64) ∷ (128 + c % 64) ∷ []

-- `ensure_ascii=False`: only the quote, the backslash and control characters are escaped.
escape_utf8 : ℕ → List ℕ
unfolding escape utf8
escape_utf8 c = if ltb 126 c then utf8 c else escape c

escape_all_utf8 : List ℕ → List ℕ
unfolding escape_utf8
escape_all_utf8 [] = []
escape_all_utf8 (c ∷ cs) = escape_utf8 c ++ escape_all_utf8 cs

quote_utf8 : String → List ℕ
unfolding escape_all_utf8 codes
quote_utf8 s = 34 ∷ escape_all_utf8 (codes s) ++ 34 ∷ []

-- The decimal digits of a number, with fuel for their count.
digits : ℕ → ℕ → List ℕ → List ℕ
digits zero n acc = acc
digits (suc fuel) n acc =
    let rest = digits fuel (n / 10) ((b'0' + n % 10) ∷ acc) in
    if ltb n 10 then (b'0' + n) ∷ acc else rest

decimal : ℕ → List ℕ
unfolding digits
decimal n = digits (suc n) n []

literal : Bool → List ℕ
unfolding codes
literal true = codes "true"
literal false = codes "false"

-- The text of a value, with the way to write a string.
unfoldable mutual
  unfolding decimal literal codes

  pub print : Json → (String → Bytes) → Bytes
  print null q = codes "null"
  print (boolean b) q = literal b
  print (num n) q = decimal n
  print (str s) q = q s
  print (arr xs) q = b'[' ∷ print_items xs q ++ b']' ∷ []
  print (obj fs) q = b'{' ∷ print_fields fs q ++ b'}' ∷ []

  pub print_items : Items → (String → Bytes) → Bytes
  print_items nil q = []
  print_items (cons x xs) q = print x q ++ more_items xs q

  pub more_items : Items → (String → Bytes) → Bytes
  more_items nil q = []
  more_items (cons x xs) q = b',' ∷ print x q ++ more_items xs q

  pub print_fields : Fields → (String → Bytes) → Bytes
  print_fields end q = []
  print_fields (field k x fs) q = q k ++ b':' ∷ print x q ++ more_fields fs q

  pub more_fields : Fields → (String → Bytes) → Bytes
  more_fields end q = []
  more_fields (field k x fs) q = b',' ∷ q k ++ b':' ∷ print x q ++ more_fields fs q

unfoldable pub dumps : Json → Bytes
unfolding print quote
dumps value = print value quote

-- With `ensure_ascii=False`, encoded as UTF-8.
unfoldable pub dumps_utf8 : Json → Bytes
unfolding print quote_utf8
dumps_utf8 value = print value quote_utf8

abbrev pub null_or : Option String → Json
null_or none = null
null_or (some s) = str s

abbrev sample : Json
sample = obj (
    field "a\"" (arr (cons (num 120) (cons (boolean false) nil)))
      (field "b" (str "né") (field "c" null end)))

dumps-sample : dumps sample ≡ codes "{\"a\\\"\":[120,false],\"b\":\"n\\u00e9\",\"c\":null}"
unfolding dumps
dumps-sample = refl

dumps_utf8-accent : dumps_utf8 (str "é\n") ≡ 34 ∷ 195 ∷ 169 ∷ 92 ∷ 110 ∷ 34 ∷ []
unfolding dumps_utf8
dumps_utf8-accent = refl
