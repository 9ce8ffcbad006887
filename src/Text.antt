-- ===== src/Text.antt =====
-- The checks on texts that the persisted records share: run_ids.py, `require_sha256`, and the
-- `nonblank_text` and `_safe_text` of the execution package. A text is walked as its code points.
use Prim.Native.Char.{code}
use Prim.Native.String.{String}
use spy_market_agent.Prelude.{
  ℕ, ◌+◌, Bool, true, false, not, ◌&&◌, ◌||◌, List, [], ◌∷◌, leb, ◌==◌, any, length, if◌then◌else◌,
  Result, ok, raise_if, ◌>>◌, execution_input,
}

abbrev pub codes : String → List ℕ
codes String.[] = []
codes (String.◌∷◌ c rest) = code c ∷ codes rest

abbrev between : ℕ → ℕ → ℕ → Bool
between low high c = leb low c && leb c high

-- `str.isspace`: the characters that `str.strip` removes
is_space : ℕ → Bool
is_space c =
    between 9 13 c
    || between 28 32 c
    || c == 133
    || c == 160
    || c == 5760
    || between 8192 8202 c
    || c == 8232
    || c == 8233
    || c == 8239
    || c == 8287
    || c == 12288

-- The lower case of a character, as far as ASCII letters come out: those of ASCII, and the Kelvin
-- sign.
lower_code : ℕ → ℕ
lower_code c = if between b'A' b'Z' c then c + 32 else if c == 8490 then b'k' else c

unfoldable pub lowered : List ℕ → List ℕ
unfolding lower_code
lowered [] = []
lowered (c ∷ cs) = lower_code c ∷ lowered cs

unfoldable pub same_codes : List ℕ → List ℕ → Bool
same_codes [] [] = true
same_codes (a ∷ as') (b ∷ bs) = a == b && same_codes as' bs
same_codes _ _ = false

-- `value.lower() == other`, for a lower-case ASCII `other`
unfoldable pub lower_eq : String → String → Bool
unfolding lowered same_codes
lower_eq value other = same_codes (lowered (codes value)) (codes other)

has_prefix : List ℕ → List ℕ → Bool
has_prefix [] cs = true
has_prefix (p ∷ ps) [] = false
has_prefix (p ∷ ps) (c ∷ cs) = p == c && has_prefix ps cs

-- `marker in text`
unfoldable pub contains_codes : List ℕ → List ℕ → Bool
unfolding has_prefix
contains_codes marker [] = has_prefix marker []
contains_codes marker (c ∷ cs) = has_prefix marker (c ∷ cs) || contains_codes marker cs

last_is_space : List ℕ → Bool
unfolding is_space
last_is_space [] = false
last_is_space (c ∷ []) = is_space c
last_is_space (c ∷ d ∷ cs) = last_is_space (d ∷ cs)

first_is_space : List ℕ → Bool
unfolding is_space
first_is_space [] = false
first_is_space (c ∷ _) = is_space c

-- nonblank text without surrounding white space
unfoldable pub is_nonblank : String → Bool
unfolding first_is_space last_is_space
is_nonblank value =
    let cs = codes value in not (length cs == 0) && not (first_is_space cs || last_is_space cs)

-- credential-like content
unfoldable pub is_credential_like : String → Bool
unfolding lowered contains_codes
is_credential_like value =
    let low = lowered (codes value) in
    any (λ marker. contains_codes (codes marker) low)
      ("secret" ∷ "api_key" ∷ "apikey" ∷ "password" ∷ "token=" ∷ [])

-- `nonblank_text` and `_safe_text`, with the two codes
unfoldable pub nonblank_text : String → String → String → Result (Unit {0})
nonblank_text value invalid unsafe = do
  raise_if (not (is_nonblank value)) (execution_input invalid)
  raise_if (is_credential_like value) (execution_input unsafe)
  ok tt

-- `bool(value.strip())`
unfoldable pub has_text : String → Bool
unfolding is_space
has_text value = any (λ c. not (is_space c)) (codes value)

is_alphanumeric : ℕ → Bool
is_alphanumeric c = between b'A' b'Z' c || between b'a' b'z' c || between b'0' b'9' c

all_codes : (ℕ → Bool) → List ℕ → Bool
all_codes test cs = not (any (λ c. not (test c)) cs)

-- RUN_ID_PATTERN: ^[A-Za-z0-9][A-Za-z0-9._-]{0,127}$
run_id_codes : List ℕ → Bool
unfolding is_alphanumeric all_codes
run_id_codes [] = false
run_id_codes (c ∷ cs) =
    is_alphanumeric c
    && leb (length cs) 127
    && all_codes (λ d. is_alphanumeric d || d == b'.' || d == b'_' || d == b'-') cs

unfoldable pub is_execution_id : String → Bool
unfolding run_id_codes
is_execution_id value = run_id_codes (codes value)

-- 64 lower-case hexadecimal digits
unfoldable pub is_sha256 : String → Bool
unfolding all_codes
is_sha256 value =
    let cs = codes value in
    length cs == 64 && all_codes (λ c. between b'0' b'9' c || between b'a' b'f' c) cs
