-- ===== src/MailRules/Rules.antt =====
-- What a mailbox asks for, checked: `_normalize_autoresponder`, `_normalize_filters` and
-- `_normalize_spam` of agent/mail_sieve.py. `none` is an exception.
use nexvary_panel.Base.{
  ℕ, ◌+◌, String, ◌==◌, Bool, true, false, not, ◌&&◌, ◌||◌, Option, none, some, List, [], ◌∷◌, ltb,
  leb, eqb, if◌then◌else◌,
}
use Prim.Native.Char.{code}
use nexvary_panel.Base.Int.{ℤ, pos, negsuc}
use nexvary_panel.Base.Json.{
  Json, Fields, Items, get_or, flag, text_of, int_of, truth, dict_or_empty,
}
use nexvary_panel.Base.Names.{matches}
use nexvary_panel.Base.Text.{
  ◌⧺◌, chars, any_char, all_chars, truthy, strip, lower, is_alnum, split_at_char,
}
use nexvary_panel.Base.Sets.{contains, lookup}

pub record Autoresponder : Type 0 where
  pub enabled : Bool
  pub subject : String
  pub body : String
  pub interval_days : ℕ

pub record Filter : Type 0 where
  pub field : String
  pub header_name : String
  pub match_type : String
  pub pattern_text : String
  pub action : String
  pub destination : String
  pub priority : ℕ

pub record Spam : Type 0 where
  pub enabled : Bool
  pub action : String

-- `FIELDS`, `GLOBAL_FIELDS`, `MATCHES` and `ACTIONS`
abbrev pub fields : List (String × String)
fields =
    ("from", "From") ∷ ("to", "To") ∷ ("subject", "Subject") ∷ ("spam_flag", "X-Spam-Flag") ∷ []

abbrev pub global_fields : List (String × String)
global_fields = ("from", "From") ∷ ("to", "To") ∷ ("subject", "Subject") ∷ ("header", "") ∷ []

abbrev pub match_types : List (String × String)
match_types = ("contains", ":contains") ∷ ("is", ":is") ∷ []

abbrev pub actions : List String
actions = "fileinto" ∷ "redirect" ∷ "discard" ∷ []

abbrev pub fields_of : Bool → List (String × String)
fields_of global_scope = if global_scope then global_fields else fields

-- `FOLDER_RE`, `HEADER_RE` and `EMAIL_RE`, as `fullmatch`
unfoldable pub is_folder : String → Bool
is_folder s =
    matches is_alnum (λ c. is_alnum c || eqb c b' ' || eqb c b'.' || eqb c b'_' || eqb c b'-') 0 62
      s

unfoldable pub is_header : String → Bool
is_header s = matches is_alnum (λ c. is_alnum c || eqb c b'-') 0 62 s

unfoldable pub is_local_char : ℕ → Bool
is_local_char c = is_alnum c || any_char (λ d. eqb c d) ".!#$%&'*+/=?^_`{|}~-"

unfoldable pub is_email : String → Bool
is_email s = elim (split_at_char b'@' s) [
  | none ↦ false
  | some (a, b) ↦
      leb 1 (chars a)
      && leb (chars a) 64
      && all_chars is_local_char a
      && leb 1 (chars b)
      && leb (chars b) 253
      && all_chars (λ c. is_alnum c || eqb c b'.' || eqb c b'-') b
]

unfoldable pub has_double_dot : String → Bool
has_double_dot String.[] = false
has_double_dot (String.◌∷◌ c String.[]) = false
has_double_dot (String.◌∷◌ c (String.◌∷◌ d s)) =
    has_double_dot (String.◌∷◌ d s) || (eqb (code c) b'.' && eqb (code d) b'.')

-- a number from `low` to `high`
unfoldable pub number_between : ℕ → ℕ → ℤ → Option ℕ
number_between low high (pos n) = if leb low n && leb n high then some n else none
number_between low high (negsuc n) = none

unfoldable pub autoresponder_of : Bool → String → String → ℕ → Option Autoresponder
autoresponder_of enabled subject body days =
    if ltb 180 (chars subject)
      || ltb 5000 (chars body)
      || any_char (λ c. eqb c 0) (subject ⧺ body)
      || any_char (λ c. eqb c 13) subject
    then none
    else if enabled && (not (truthy subject) || not (truthy body))
    then none
    else some (record { enabled = enabled; subject = subject; body = body; interval_days = days })

unfoldable pub normalize_autoresponder : Json → Option Autoresponder
normalize_autoresponder raw =
    let data' = dict_or_empty raw in
    elim (int_of (get_or "interval_days" (Json.int (pos 1)) data')) [
      | none ↦ none
      | some days ↦ elim (number_between 1 30 days) [
        | none ↦ none
        | some n ↦
            autoresponder_of (flag "enabled" data') (strip (text_of "subject" "" data'))
              (strip (text_of "body" "" data')) n
      ]
    ]

-- the header of a global filter, or none where the field has its own
unfoldable pub header_of : Bool → String → String → Option String
header_of global_scope field name =
    if global_scope && field == "header"
    then if is_header name then some name else none
    else some ""

unfoldable pub destination_of : String → String → Option String
destination_of action destination =
    if action == "fileinto" && not (is_folder destination)
    then none
    else if action == "redirect" && (not (is_email destination) || has_double_dot destination)
    then none
    else some (if action == "discard" then "" else destination)

unfoldable pub has_field : List (String × String) → String → Bool
has_field d k = elim (lookup k d) [ none ↦ false | some _ ↦ true ]

unfoldable pub filter_of : Bool → Fields → ℤ → Option Filter
filter_of global_scope item priority =
    let field = lower (strip (text_of "field" "" item)) in
    let match_type = lower (strip (text_of "match_type" "" item)) in
    let action = lower (strip (text_of "action" "" item)) in
    let pattern_text = strip (text_of "pattern" "" item) in
    let destination = strip (text_of "destination" "" item) in
    elim (number_between 1 10000 priority) [
      | none ↦ none
      | some n ↦
          if not (has_field (fields_of global_scope) field)
            || not (has_field match_types match_type)
            || not (contains actions action)
            || not (truthy pattern_text)
            || ltb 200 (chars pattern_text)
            || any_char (λ c. eqb c 0 || eqb c 13 || eqb c 10) pattern_text
          then none
          else elim (header_of global_scope field (strip (text_of "header_name" "" item))) [
            | none ↦ none
            | some header_name ↦ elim (destination_of action destination) [
              | none ↦ none
              | some place ↦ some (record {
                field = field;
                header_name = header_name;
                match_type = match_type;
                pattern_text = pattern_text;
                action = action;
                destination = place;
                priority = n;
              })
            ]
          ]
    ]

-- An element that is not a dict, or is not enabled, is left out.
unfoldable pub asked : Json → Option Fields
asked (Json.dict s d) = if truth (get_or "enabled" (Json.bool true) d) then some d else none
asked v = none

unfoldable pub filters_of : Bool → Items → Option (List Filter)
filters_of global_scope Items.stop = some []
filters_of global_scope (Items.item v l) =
    let rest = filters_of global_scope l in
    elim (asked v) [
      | none ↦ rest
      | some item ↦ elim (int_of (get_or "priority" (Json.int (pos 100)) item)) [
        | none ↦ none
        | some priority ↦ elim (filter_of global_scope item priority) [
          | none ↦ none
          | some f ↦ elim rest [ none ↦ none | some fs ↦ some (f ∷ fs) ]
        ]
      ]
    ]

-- a filter at its place, before the filters of the same priority
unfoldable pub insert_filter : Filter → List Filter → List Filter
insert_filter f [] = f ∷ []
insert_filter f (g ∷ l) =
    let rest = insert_filter f l in if leb f.priority g.priority then f ∷ g ∷ l else g ∷ rest

-- `out.sort(key=lambda item: item["priority"])`
unfoldable pub sort_filters : List Filter → List Filter
sort_filters [] = []
sort_filters (f ∷ l) = insert_filter f (sort_filters l)

unfoldable pub item_length : Items → ℕ
item_length Items.stop = 0
item_length (Items.item v l) = item_length l + 1

unfoldable pub normalize_filters : Json → Bool → Option (List Filter)
normalize_filters (Json.list s l) global_scope =
    if ltb (if global_scope then 30 else 40) (item_length l)
    then none
    else elim (filters_of global_scope l) [ none ↦ none | some fs ↦ some (sort_filters fs) ]
normalize_filters v global_scope = none

unfoldable pub normalize_spam : Json → Option Spam
normalize_spam raw =
    let data' = dict_or_empty raw in
    let action = lower (strip (text_of "action" "junk" data')) in
    if action == "junk" || action == "discard"
    then some (record { enabled = flag "enabled" data'; action = action })
    else none
