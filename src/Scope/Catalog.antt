-- ===== src/Scope/Catalog.antt =====
-- internal/infrastructure/mysql/native_scope_guards.go: the catalogue behind a scope, with
-- `SplitCapabilityCodes` of internal/domain/split_rule_config.go.
use Prim.Native.Char.{Char, code}
use Prim.Native.String.{String, ◌++◌}
use project_management.Base.{
  Bool, true, false, ◌&&◌, ◌||◌, not, List, [], ◌∷◌, map, Option, none, some, find, filter, any,
  if◌then◌else◌, is_empty, str_eq, ltb, ◌==◌, length, trim_space, to_upper, sort_by, Result, ok,
  err, Check, ◌>>=◌, ◌>>◌, refuse_if, validation, conflict, storage,
}
use project_management.Delivery.Payload.{ItemInput}
use project_management.Scope.{
  ScopeStore, DetectionCategory, Site, Fact, category_fact, site_fact, Digest, sort_strings,
  before_text,
}

-- The separators `,`, `，`, `;` and `；`
abbrev is_separator : Char → Bool
is_separator c = code c == 44 || code c == 0xff0c || code c == 59 || code c == 0xff1b

abbrev push : Char → List String → List String
push c [] = String.◌∷◌ c String.[] ∷ []
push c (part ∷ parts) = String.◌∷◌ c part ∷ parts

-- The parts between the separators, the empty ones included
unfoldable pub split_parts : String → List String
split_parts String.[] = String.[] ∷ []
split_parts (String.◌∷◌ c s) =
    let parts = split_parts s in if is_separator c then String.[] ∷ parts else push c parts

-- The loop of `SplitCapabilityCodes`: the codes that are not empty and were not seen
unfoldable pub fresh_codes : List String → List String → List String
fresh_codes seen [] = []
fresh_codes seen (part ∷ parts) =
    let code = trim_space part in
    let skipped = fresh_codes seen parts in
    let taken = fresh_codes (code ∷ seen) parts in
    if is_empty code || any (str_eq code) seen then skipped else code ∷ taken

-- `SplitCapabilityCodes`
unfoldable pub split_capability_codes : String → List String
split_capability_codes value =
    fresh_codes [] (filter (λ part. not (is_empty part)) (split_parts value))

abbrev compacted : String → List String → List String
compacted last [] = []
compacted last (x ∷ xs) = let rest = compacted x xs in if str_eq last x then rest else x ∷ rest

-- `slices.Compact`
abbrev pub compact : List String → List String
compact [] = []
compact (x ∷ xs) = x ∷ compacted x xs

-- `slices.Equal`
abbrev pub same_texts : List String → List String → Bool
same_texts [] [] = true
same_texts [] (y ∷ ys) = false
same_texts (x ∷ xs) [] = false
same_texts (x ∷ xs) (y ∷ ys) = str_eq x y && same_texts xs ys

-- `strings.ToUpper` of capability codes, which are taken to be ASCII text.
unfoldable pub normal_codes : String → List String
normal_codes value =
    compact (sort_strings (map (λ c. to_upper (trim_space c)) (split_capability_codes value)))

abbrev category_of : ScopeStore → String → Option DetectionCategory
category_of store name = find (λ (c : DetectionCategory). str_eq c.category name) store.categories

abbrev site_of : ScopeStore → String → Option Site
site_of store site_code = find (λ (s : Site). str_eq s.site_code site_code) store.sites

-- The comparison of one item with its category
abbrev drifted : DetectionCategory → ItemInput → Bool
drifted category item =
    not (same_texts (normal_codes category.required_codes) (sort_strings item.required_codes))
    || not (str_eq category.system_standard item.system_standard)
    || (str_eq category.special_method "REQUIRED" && not (str_eq item.test_mode "PENETRATION"))
    || (not (str_eq item.test_mode "STANDARD") && not (str_eq item.test_mode "PENETRATION"))

abbrev check_site : ScopeStore → ItemInput → Check
check_site store item =
    if is_empty item.site_code
    then ok tt
    else elim (find (λ (s : Site). str_eq s.site_code item.site_code && str_eq s.status "ACTIVE")
        store.sites) [
          | none ↦ err conflict
          | some site ↦ refuse_if (not (str_eq site.name item.site)) conflict
        ]

unfoldable pub check_item : ScopeStore → ItemInput → Check
check_item store item =
    elim (find (λ (c : DetectionCategory). str_eq c.category item.category && c.enabled)
      store.categories) [
        | none ↦ err conflict
        | some category ↦ refuse_if (drifted category item) conflict >> check_site store item
      ]

unfoldable pub check_items : ScopeStore → List ItemInput → Check
check_items store [] = ok tt
check_items store (item ∷ items) = check_item store item >> check_items store items

-- `validateNativeScopeCatalog`
unfoldable pub validate_native_scope_catalog : ScopeStore → List ItemInput → Check
validate_native_scope_catalog store items =
    refuse_if (ltb (length items) 1 || ltb 200 (length items)) validation >> check_items store items

-- `facts[key] = fact`
abbrev set_fact : String → Fact → List (String × Fact) → List (String × Fact)
set_fact key fact facts = (key, fact) ∷ filter (λ (f : String × Fact). not (str_eq f.0 key)) facts

abbrev add_site : ScopeStore → ItemInput → List (String × Fact) → Result (List (String × Fact))
add_site store item facts =
    if is_empty item.site_code then ok facts else elim (site_of store item.site_code) [
      | none ↦ err storage
      | some site ↦ ok (set_fact ("site:" ++ item.site_code) (site_fact site) facts)
    ]

abbrev add_facts : ScopeStore → ItemInput → List (String × Fact) → Result (List (String × Fact))
add_facts store item facts = elim (category_of store item.category) [
  | none ↦ err storage
  | some category ↦
      add_site store item (set_fact ("category:" ++ item.category) (category_fact category) facts)
]

unfoldable pub all_facts :
    ScopeStore → List ItemInput → List (String × Fact) → Result (List (String × Fact))
all_facts store [] facts = ok facts
all_facts store (item ∷ items) facts =
    add_facts store item facts >>= λ more. all_facts store items more

-- `nativeScopeCatalogFingerprint`; JSON writes the keys of a map in their order
unfoldable pub catalog_fingerprint : Digest → ScopeStore → List ItemInput → Result String
catalog_fingerprint digest store items = all_facts store items [] >>= λ facts.
    ok (digest.facts (sort_by (λ (a b : String × Fact). before_text a.0 b.0) facts))
