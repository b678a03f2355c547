-- ===== src/Outbox/Effects/Parts.antt =====
-- internal/application/delivery_effects.go `buildDeliveryEffects`: the parts of a message.
use project_management.Base.{
  ℕ, zero, suc, ◌-◌, ◌≤◌, ◌≡◌, refl, ap, ◌∙◌, String, List, [], ◌∷◌, ◌++◌, All, arith, Bool-cases,
  inl, inr, length, take, length-take, leb,
}
use project_management.Outbox.Notice.{NotificationMessage}
use project_management.Outbox.Effects.{part_size, drop, parts, batched}

abbrev pub all_recipients : List NotificationMessage → List String
all_recipients [] = []
all_recipients (m ∷ ms) = m.recipients ++ all_recipients ms

take-drop : (n : ℕ) (xs : List String) → take n xs ++ drop n xs ≡ xs
take-drop zero xs = refl
take-drop (suc n) [] = refl
take-drop (suc n) (x ∷ xs) = ap (λ z. x ∷ z) (take-drop n xs)

append-nil : (xs : List String) → xs ++ [] ≡ xs
append-nil [] = refl
append-nil (x ∷ xs) = ap (λ z. x ∷ z) (append-nil xs)

length-drop : (n : ℕ) (xs : List String) → length (drop n xs) ≡ length xs - n
length-drop zero xs = omega arith
length-drop (suc n) [] = omega arith
length-drop (suc n) (x ∷ xs) = omega (arith, length-drop n xs)

parts-all :
    (message : NotificationMessage) (left number : ℕ) (recipients : List String)
    → length recipients ≤ left
    → all_recipients (parts message left number recipients) ≡ recipients
unfolding parts
parts-all message zero number [] h = refl
parts-all message zero number (r ∷ rs) h = absurd (omega arith)
parts-all message (suc left) number [] h = refl
parts-all message (suc left) number (r ∷ rs) h =
    let fewer : length (drop part_size (r ∷ rs)) ≤ left =
      omega (arith, h, length-drop part_size (r ∷ rs)) in
    ap (λ z. take part_size (r ∷ rs) ++ z)
      (parts-all message left (suc number) (drop part_size (r ∷ rs)) fewer)
    ∙ take-drop part_size (r ∷ rs)

parts-short :
    (message : NotificationMessage) (left number : ℕ) (recipients : List String)
    → All
        (λ (m : NotificationMessage). length m.recipients ≤ part_size)
        (parts message left number recipients)
unfolding parts
parts-short message zero number recipients = tt
parts-short message (suc left) number [] = tt
parts-short message (suc left) number (r ∷ rs) = (
  length-take part_size (r ∷ rs),
  parts-short message left (suc number) (drop part_size (r ∷ rs)),
)

-- The parts of a message have 500 recipients at most, and together those of the message, in their order.
pub batched-recipients :
    (message : NotificationMessage)
    → All (λ (m : NotificationMessage). length m.recipients ≤ part_size) (batched message)
      × (all_recipients (batched message) ≡ message.recipients)
unfolding batched
batched-recipients message = elim (Bool-cases (leb (length message.recipients) part_size)) [
  | inl e ↦ rw e ((ground (arith, e), tt), append-nil message.recipients)
  | inr e ↦ rw e (
    parts-short message (length message.recipients) 1 message.recipients,
    parts-all message (length message.recipients) 1 message.recipients (omega arith),
  )
]
