-- ===== src/Outbox/Effects/People.antt =====
-- internal/application/delivery_effects.go: what the people of a page add to the recipients.
use project_management.Base.{
  ℕ, suc, ◌+◌, length, ◌*◌, ◌≤◌, ◌≡◌, refl, sym, ◌∙◌, String, true, false, ◌||◌, List, [], ◌∷◌,
  Option, some, All, All-map, arith, Bool-cases, inl, inr, str_eq, str_eq_iff, str_eq_comm,
  trim_space, pos,
}
use project_management.Outbox.Effects.{
  DirectoryPage, page_size, Found, is_recorded, is_bad_id, snoc, with_person, add_people,
}

abbrev pub NoRepeat : List String → Type 0
NoRepeat [] = Unit
NoRepeat (x ∷ xs) = (is_recorded xs x ≡ false) × NoRepeat xs

abbrev pub Valid : String → Type 0
Valid id = is_bad_id id ≡ false

-- From a page on, each page is there and all its people are among the recipients, up to the last page that
-- the total wants; the last index is the number of people on these pages.
pub data Pages (list : ℕ → Option DirectoryPage) (recipients : List String) (total : ℕ)
    : ℕ → ℕ → Type 0 where
  last :
      {number : ℕ} (page : DirectoryPage)
      → list number ≡ some page
      → page.total ≡ pos total
      → All (λ p. is_recorded recipients (trim_space p) ≡ true) page.items
      → total ≤ number * page_size
      → Pages list recipients total number (length page.items)
  more :
      {number met : ℕ} (page : DirectoryPage)
      → list number ≡ some page
      → page.total ≡ pos total
      → All (λ p. is_recorded recipients (trim_space p) ≡ true) page.items
      → Pages list recipients total (suc number) met
      → Pages list recipients total number (length page.items + met)

abbrev pub Grows : List String → List String → Type 0
Grows xs ys = (id : String) → is_recorded xs id ≡ true → is_recorded ys id ≡ true

pub Pages-grow :
    {list : ℕ → Option DirectoryPage} {xs ys : List String} {total number met : ℕ}
    → Grows xs ys
    → Pages list xs total number met
    → Pages list ys total number met
Pages-grow g (last page e t h l) =
    last page e t (All-map _ _ page.items (λ p k. g (trim_space p) k) h) l
Pages-grow g (more page e t h r) =
    more page e t (All-map _ _ page.items (λ p k. g (trim_space p) k) h) (Pages-grow g r)

is_recorded-snoc :
    (xs : List String) (y id : String)
    → is_recorded (snoc xs y) id ≡ (is_recorded xs id || str_eq id y)
is_recorded-snoc [] y id = ground arith
is_recorded-snoc (x ∷ xs) y id = let ih = is_recorded-snoc xs y id in ground (arith, ih)

snoc-NoRepeat :
    (xs : List String) (y : String) → is_recorded xs y ≡ false → NoRepeat xs → NoRepeat (snoc xs y)
snoc-NoRepeat [] y f n = (refl, tt)
snoc-NoRepeat (x ∷ xs) y f n =
    let apart : str_eq x y ≡ false = str_eq_comm x y ∙ ground (arith, f) in
    let rest : is_recorded xs y ≡ false = ground (arith, f) in
    (is_recorded-snoc xs y x ∙ ground (arith, n.0, apart), snoc-NoRepeat xs y rest n.1)

snoc-Valid : (xs : List String) (y : String) → Valid y → All Valid xs → All Valid (snoc xs y)
snoc-Valid [] y v h = (v, tt)
snoc-Valid (x ∷ xs) y v h = (h.0, snoc-Valid xs y v h.1)

pub record Good (recipients : List String) : Type 0 where
  pub valid : All Valid recipients
  pub single : NoRepeat recipients

-- What adding a person leaves.
record Added (id : String) (before after : List String) : Type 0 where
  pub good : Good before → Good after
  pub grows : Grows before after
  pub there : is_recorded after id ≡ true

person-Added :
    (id : String) (found : Found)
    → is_bad_id id ≡ false
    → Added id found.recipients (with_person id found).recipients
person-Added id found v = elim (Bool-cases (is_recorded found.recipients id)) [
  | inl e ↦ record { good = rw e (λ g. g); grows = rw e (λ i h. h); there = rw e e }
  | inr e ↦ record {
    good = rw e (λ g. record {
      valid = snoc-Valid found.recipients id v g.valid;
      single = snoc-NoRepeat found.recipients id e g.single;
    });
    grows = rw e (λ i h. is_recorded-snoc found.recipients id i ∙ ground (arith, h));
    there =
        rw e (is_recorded-snoc found.recipients id id ∙ ground (arith, (str_eq_iff id id).1 refl));
  }
]

pub record Taken (items : List String) (before after : Found) : Type 0 where
  pub good : Good before.recipients → Good after.recipients
  pub grows : Grows before.recipients after.recipients
  pub there : All (λ p. is_recorded after.recipients (trim_space p) ≡ true) items
  pub counted : after.resolved ≡ length items + before.resolved

pub people-Taken :
    (people : List String) (found : Found) {left : Found}
    → add_people people found ≡ some left
    → Taken people found left
unfolding add_people
people-Taken [] found {left = left} h =
    let same : found ≡ left = cc in
    rw (sym same) (record { good = λ g. g; grows = λ i k. k; there = tt; counted = omega arith })
people-Taken (p ∷ people) found {left = left} h = elim (Bool-cases (is_bad_id (trim_space p))) [
  | inl bad ↦ absurd (let q = rw bad at h in cc)
  | inr fine ↦ elim (Bool-cases (is_recorded found.role_seen (trim_space p))) [
    | inl twice ↦ absurd (let q = rw (fine, twice) at h in cc)
    | inr once ↦
        let one = person-Added (trim_space p) found fine in
        let rest =
          people-Taken people (with_person (trim_space p) found) {left = left}
            (rw (fine, once) at h) in
        record {
          good = λ g. rest.good (one.good g);
          grows = λ i k. rest.grows i (one.grows i k);
          there = (rest.grows (trim_space p) one.there, rest.there);
          counted = omega (arith, rest.counted);
        }
  ]
]
