-- ===== src/Outbox/Notice/Life.antt =====
-- The life of a notification, by itself and as the dispatcher of
-- internal/application/delivery_outbox.go makes it happen.
pub mod Claims
pub mod Marks
pub mod Turns
use project_management.Base.{ℕ, suc, ◌≤◌, ◌<◌, ◌≡◌, refl, Bool, true, false, arith}
use project_management.Outbox.Notice.{
  NoticeStatus, NoticeRow, pending, processing, retry_wait, sent, dead_letter, is_open,
  is_processing,
}

-- From a status and a number of failed attempts to another: a notification is taken while it is open; one
-- that is taken is delivered, put off until its twelfth failure, or given up at that one.
pub data Life : NoticeStatus → ℕ → NoticeStatus → ℕ → Type 0 where
  rests : {s : NoticeStatus} {n : ℕ} → Life s n s n
  takes : {s t : NoticeStatus} {n m : ℕ} → is_open s ≡ true → Life processing n t m → Life s n t m
  delivers :
      {s t : NoticeStatus} {n m : ℕ} → is_processing s ≡ true → Life sent n t m → Life s n t m
  puts_off :
      {s t : NoticeStatus} {n m : ℕ}
      → is_processing s ≡ true
      → suc n < 12
      → Life retry_wait (suc n) t m
      → Life s n t m
  gives_up :
      {s t : NoticeStatus} {n m : ℕ}
      → is_processing s ≡ true
      → 12 ≤ suc n
      → Life dead_letter (suc n) t m
      → Life s n t m

pub Life-trans : {s t u : NoticeStatus} {n m k : ℕ} → Life s n t m → Life t m u k → Life s n u k
Life-trans rests b = b
Life-trans (takes o a) b = takes o (Life-trans a b)
Life-trans (delivers o a) b = delivers o (Life-trans a b)
Life-trans (puts_off o h a) b = puts_off o h (Life-trans a b)
Life-trans (gives_up o h a) b = gives_up o h (Life-trans a b)

abbrev pub Lives : NoticeRow → NoticeRow → Type 0
Lives x y = Life x.status x.retry_count y.status y.retry_count

closed : (s : NoticeStatus) → is_processing s ≡ true → is_open s ≡ false → ⊥
closed pending p o = cc
closed processing p o = cc
closed retry_wait p o = cc
closed sent p o = cc
closed dead_letter p o = cc

-- What was delivered or given up stays so.
pub Life-closed :
    {s t : NoticeStatus} {n m : ℕ} → is_open s ≡ false → Life s n t m → (t ≡ s) × (m ≡ n)
Life-closed c rests = (refl, refl)
Life-closed c (takes o a) = cc
Life-closed {s = s} c (delivers o a) = absurd (closed s o c)
Life-closed {s = s} c (puts_off o h a) = absurd (closed s o c)
Life-closed {s = s} c (gives_up o h a) = absurd (closed s o c)

abbrev pub is_dead_letter : NoticeStatus → Bool
is_dead_letter dead_letter = true
is_dead_letter _ = false

-- An open notification has failed less than twelve times, one that was given up has failed twelve times.
pub record Budget (s : NoticeStatus) (n : ℕ) : Type 0 where
  pub left : is_open s ≡ true → n < 12
  pub used : is_dead_letter s ≡ true → n ≡ 12

processing_open : (s : NoticeStatus) → is_processing s ≡ true → is_open s ≡ true
processing_open pending p = refl
processing_open processing p = refl
processing_open retry_wait p = refl
processing_open sent p = cc
processing_open dead_letter p = cc

pub Life-Budget : {s t : NoticeStatus} {n m : ℕ} → Life s n t m → Budget s n → Budget t m
Life-Budget rests b = b
Life-Budget (takes o a) b = Life-Budget a (record { left = λ _. b.left o; used = λ e. cc })
Life-Budget (delivers o a) b = Life-Budget a (record { left = λ e. cc; used = λ e. cc })
Life-Budget (puts_off o h a) b = Life-Budget a (record { left = λ _. h; used = λ e. cc })
Life-Budget {s = s} (gives_up o h a) b =
    let few = b.left (processing_open s o) in
    Life-Budget a (record { left = λ e. cc; used = λ _. omega (arith, h, few) })
