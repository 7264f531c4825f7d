-- ===== src/Format/Answers.antt =====
-- What a function comes to that fills buffers and may fail: what holds of a result, and why there
-- is none.
use ngx_sqlite_log.Base.{ℕ, ◌≡◌, refl, ◌⊎◌, List, [], ◌∷◌, Option, none, some}
use ngx_sqlite_log.Memory.{Pool, Outcome, failed, overflow, built, ◌>>=◌, or_failed}

-- Nothing is written past a buffer; what is built has the property; and a failure has that reason.
abbrev pub Answers : {A : Type 0} → Type 0 → (A → Type 0) → Outcome A → Type 0
Answers Why P failed = Why
Answers Why P overflow = ⊥
Answers Why P (built a) = P a

pub >>=-Answers :
    {A B : Type 0} {Why Because : Type 0} (P : A → Type 0) (Q : B → Type 0) (o : Outcome A)
    (k : A → Outcome B)
    → Answers Why P o
    → (Why → Because)
    → ((a : A) → P a → Answers Because Q (k a))
    → Answers Because Q (o >>= k)
>>=-Answers P Q failed k h why step = why h
>>=-Answers P Q overflow k h why step = h
>>=-Answers P Q (built a) k h why step = step a h

-- What follows a call that may fail, with the reason of its failure.
pub some-Answers :
    {A B : Type 0} {Because : Type 0} (Q : B → Type 0) (o : Option A) (k : A → Outcome B)
    → (o ≡ none → Because)
    → ((a : A) → o ≡ some a → Answers Because Q (k a))
    → Answers Because Q (or_failed o >>= k)
some-Answers Q none k why h = why refl
some-Answers Q (some a) k why h = h a refl

-- The pool has a state in which it returns NULL.
abbrev pub RunsOut : Pool → Type 0
RunsOut p =
    (m : p.State) × ((p.array_push m ≡ none)
      ⊎ ((size : ℕ) × ((p.array_create size m ≡ none)
            ⊎ ((p.palloc size m ≡ none) ⊎ (p.pcalloc size m ≡ none)))))

-- nginx knows no variable of one of these names.
abbrev pub SomeUnknown : (List ℕ → Option ℕ) → List (List ℕ × List ℕ) → Type 0
SomeUnknown variable_index [] = ⊥
SomeUnknown variable_index ((name, type) ∷ cols) =
    (variable_index name ≡ none) ⊎ SomeUnknown variable_index cols

-- Nothing is written past a buffer, and what is built has the property.
abbrev pub Builds : {A : Type 0} → (A → Type 0) → Outcome A → Type 0
Builds P failed = Unit {0}
Builds P overflow = ⊥
Builds P (built a) = P a

pub >>=-Builds :
    {A B : Type 0} (P : A → Type 0) (Q : B → Type 0) (o : Outcome A) (k : A → Outcome B)
    → Builds P o
    → ((a : A) → P a → Builds Q (k a))
    → Builds Q (o >>= k)
>>=-Builds P Q failed k h step = tt
>>=-Builds P Q overflow k h step = h
>>=-Builds P Q (built a) k h step = step a h

-- What follows a call that may fail, with what the call returned.
pub some-Builds :
    {A B : Type 0} (Q : B → Type 0) (o : Option A) (k : A → Outcome B)
    → ((a : A) → o ≡ some a → Builds Q (k a))
    → Builds Q (or_failed o >>= k)
some-Builds Q none k h = tt
some-Builds Q (some a) k h = h a refl

abbrev pub Anything : {A : Type 0} → A → Type 0
Anything a = Unit {0}

pub or_failed-Builds : {A : Type 0} (o : Option A) → Builds Anything (or_failed o)
or_failed-Builds none = tt
or_failed-Builds (some a) = tt

pub Answers-Builds :
    {A : Type 0} (Why : Type 0) (P : A → Type 0) (o : Outcome A) → Answers Why P o → Builds P o
Answers-Builds Why P failed h = tt
Answers-Builds Why P overflow h = h
Answers-Builds Why P (built a) h = h
