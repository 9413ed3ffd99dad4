-- ===== src/Labels/Keys.antt =====
-- The texts of container labels: splitting a key at its dots, the keys that are listed in the code, and
-- `setJobParam`'s test of a parameter's name.
use Prim.Native.Char.{Char, code}
use Prim.Native.String as Native
use ofelia.Common.{
  ℕ, ◌+◌, String, Bool, true, false, ◌&&◌, ◌||◌, List, [], ◌∷◌, leb, ◌==◌, if◌then◌else◌, ◌is◌,
}

-- The part before the first dot gets one more character in front.
abbrev pub in_front : Char → List String → List String
in_front c [] = []
in_front c (p ∷ parts) = Native.String.◌∷◌ c p ∷ parts

-- `strings.Split(s, ".")`
unfoldable pub split_dots : String → List String
split_dots Native.String.[] = "" ∷ []
split_dots (Native.String.◌∷◌ c s) =
    let parts = split_dots s in if code c == b'.' then "" ∷ parts else in_front c parts

-- `unicode.ToLower` as far as it maps to a letter of the names below; 304 is a dotted capital I.
abbrev pub to_lower : ℕ → ℕ
to_lower c = if c == 304 then b'i' else if leb b'A' c && leb c b'Z' then c + 32 else c

-- Whether `strings.ToLower(s)` is the text `t`.
unfoldable pub lowers_to : String → String → Bool
lowers_to Native.String.[] Native.String.[] = true
lowers_to Native.String.[] (Native.String.◌∷◌ d t) = false
lowers_to (Native.String.◌∷◌ c s) Native.String.[] = false
lowers_to (Native.String.◌∷◌ c s) (Native.String.◌∷◌ d t) =
    let rest = lowers_to s t in if to_lower (code c) == code d then rest else false

-- The names of the `switch` in `setJobParam`.
unfoldable pub is_list_param : String → Bool
unfolding lowers_to
is_list_param name =
    lowers_to name "volume"
    || lowers_to name "environment"
    || lowers_to name "volumes-from"
    || lowers_to name "depends-on"
    || lowers_to name "on-success"
    || lowers_to name "on-failure"
    || lowers_to name "env-file"
    || lowers_to name "env-from"

unfoldable pub is_internal : String → Bool
is_internal k = k is "ofelia.enabled" || k is "ofelia.service" || k is "com.docker.compose.service"

unfoldable pub is_one_of : List String → String → Bool
is_one_of [] key = false
is_one_of (k ∷ keys) key = if k is key then true else is_one_of keys key

abbrev pub global_label_allow_list : List String
global_label_allow_list =
    "log-level" ∷ "max-runtime" ∷ "notification-cooldown" ∷ "enable-strict-validation"
    ∷ "slack-webhook" ∷ "slack-only-on-error" ∷ "smtp-host" ∷ "smtp-port" ∷ "smtp-user"
    ∷ "smtp-password" ∷ "smtp-tls-skip-verify" ∷ "smtp-tls-policy" ∷ "email-to" ∷ "email-from"
    ∷ "email-subject" ∷ "mail-only-on-error" ∷ "save-only-on-error" ∷ "restore-history"
    ∷ "restore-history-max-age" ∷ "webhook-webhooks" ∷ "webhook-preset-cache-ttl"
    ∷ "webhook-default-preset" ∷ "webhooks" ∷ []
