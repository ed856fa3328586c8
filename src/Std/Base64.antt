-- ===== src/Std/Base64.antt =====
-- encoding/base64, StdEncoding: the standard alphabet with padding.
use go_signal.Base.{
  ℕ, ◌+◌, ◌-◌, ◌*◌, ◌/◌, ◌%◌, ◌&&◌, Option, none, some, [], ◌∷◌, Bytes, leb, ltb, ◌==◌,
  if◌then◌else◌, ◌≡◌, refl, codes,
}

-- The letter of a sextet.
letter : ℕ → ℕ
letter n =
    if ltb n 26
    then b'A' + n
    else if ltb n 52
    then b'a' + (n - 26)
    else if ltb n 62
    then b'0' + (n - 52)
    else if n == 62
    then b'+'
    else b'/'

-- The sextet of a letter.
sextet : ℕ → Option ℕ
sextet c =
    if leb b'A' c && leb c b'Z'
    then some (c - b'A')
    else if leb b'a' c && leb c b'z'
    then some (c - b'a' + 26)
    else if leb b'0' c && leb c b'9'
    then some (c - b'0' + 52)
    else if c == b'+'
    then some 62
    else if c == b'/'
    then some 63
    else none

-- base64.StdEncoding.EncodeToString
unfoldable pub encode : Bytes → Bytes
unfolding letter
encode [] = []
encode (a ∷ []) = letter (a / 4) ∷ letter (a % 4 * 16) ∷ b'=' ∷ b'=' ∷ []
encode (a ∷ b ∷ []) =
    letter (a / 4) ∷ letter (a % 4 * 16 + b / 16) ∷ letter (b % 16 * 4) ∷ b'=' ∷ []
encode (a ∷ b ∷ c ∷ s) =
    letter (a / 4)
    ∷ letter (a % 4 * 16 + b / 16)
    ∷ letter (b % 16 * 4 + c / 64)
    ∷ letter (c % 64)
    ∷ encode s

-- The decoder skips line breaks, wherever they stand.
strip : Bytes → Bytes
strip [] = []
strip (c ∷ s) =
    let rest = strip s in if c == b'\n' then rest else if c == b'\r' then rest else c ∷ rest

join : ℕ → ℕ → ℕ → ℕ → Bytes → Bytes
join a b c d rest = (a * 4 + b / 16) ∷ (b % 16 * 16 + c / 4) ∷ (c % 4 * 64 + d) ∷ rest

abbrev ◌>>=◌ {ℓ κ} : {A : Type ℓ} {B : Type κ} → Option A → (A → Option B) → Option B
none >>= f = none
some a >>= f = f a

infixl 5 ◌>>=◌
-- The last group: two letters and two pads, three letters and a pad, or four letters.
last_group : ℕ → ℕ → ℕ → ℕ → Option Bytes
unfolding sextet join
last_group p q r s =
    if s == b'='
    then (if r == b'='
        then (sextet p >>= λ a. sextet q >>= λ b. some ((a * 4 + b / 16) ∷ []))
        else (sextet p >>= λ a. sextet q >>= λ b.
            sextet r >>= λ c. some ((a * 4 + b / 16) ∷ (b % 16 * 16 + c / 4) ∷ [])))
    else (sextet p >>= λ a.
        sextet q >>= λ b. sextet r >>= λ c. sextet s >>= λ d. some (join a b c d []))

groups : Bytes → Option Bytes
unfolding last_group sextet join
groups [] = some []
groups (p ∷ q ∷ r ∷ s ∷ []) = last_group p q r s
groups (p ∷ q ∷ r ∷ s ∷ t ∷ rest) = sextet p >>= λ a. sextet q >>= λ b.
    sextet r >>= λ c. sextet s >>= λ d. groups (t ∷ rest) >>= λ out. some (join a b c d out)
groups other = none

-- base64.StdEncoding.DecodeString; `none` is a CorruptInputError.
unfoldable pub decode : Bytes → Option Bytes
unfolding strip groups
decode s = groups (strip s)

encode_runs : encode (codes "any carnal pleas") ≡ codes "YW55IGNhcm5hbCBwbGVhcw=="
unfolding encode
encode_runs = refl

decode_runs : decode (codes "YW55IGNhcm5h\r\nbCBwbGVhcw==") ≡ some (codes "any carnal pleas")
unfolding decode
decode_runs = refl

-- The sextet of a letter of base64.RawURLEncoding.
url_sextet : ℕ → Option ℕ
url_sextet c =
    if leb b'A' c && leb c b'Z'
    then some (c - b'A')
    else if leb b'a' c && leb c b'z'
    then some (c - b'a' + 26)
    else if leb b'0' c && leb c b'9'
    then some (c - b'0' + 52)
    else if c == b'-'
    then some 62
    else if c == b'_'
    then some 63
    else none

raw_groups : Bytes → Option Bytes
unfolding url_sextet join
raw_groups [] = some []
raw_groups (p ∷ []) = none
raw_groups (p ∷ q ∷ []) = url_sextet p >>= λ a. url_sextet q >>= λ b. some ((a * 4 + b / 16) ∷ [])
raw_groups (p ∷ q ∷ r ∷ []) = url_sextet p >>= λ a.
    url_sextet q >>= λ b. url_sextet r >>= λ c. some ((a * 4 + b / 16) ∷ (b % 16 * 16 + c / 4) ∷ [])
raw_groups (p ∷ q ∷ r ∷ s ∷ rest) = url_sextet p >>= λ a. url_sextet q >>= λ b.
    url_sextet r >>= λ c. url_sextet s >>= λ d. raw_groups rest >>= λ out. some (join a b c d out)

-- base64.RawURLEncoding.DecodeString
unfoldable pub decode_url : Bytes → Option Bytes
unfolding strip raw_groups
decode_url s = raw_groups (strip s)

decode_url_runs : decode_url (codes "_-8") ≡ some (0xff ∷ 0xef ∷ [])
unfolding decode_url
decode_url_runs = refl
