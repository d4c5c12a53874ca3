-- ===== src/Ca/Step.antt =====
-- Steps of launcher/xlpod-server/src/ca.rs: they ask the host, note what they have done, and give a
-- value or a `CaError`.
use xlpod.Common.{
  ℕ, suc, ◌≡◌, refl, Bool, true, false, List, [], ◌∷◌, ◌++◌, All, All-append, Option, none, some,
  String, sym, if◌then◌else◌,
}
use mathlib.Core.List.{append_assoc}
use xlpod.Ca.Certificate.{CertificateParams}
use xlpod.Server.Start.{PathBuf}
use xlpod.Common.Unicode.{in_front}

-- `enum CaError`; the errors of other packages by their texts.
pub data CaError : Type 0 where
  io rcgen certutil_failed : String → CaError

-- `impl Display for CaError`.
unfoldable pub display_ca_error : CaError → String
display_ca_error (io e) = in_front "io error: " e
display_ca_error (rcgen e) = in_front "cert generation: " e
display_ca_error (certutil_failed s) = in_front "certutil: " s

-- What has been done: a folder made, a file written, a certificate signed by its own key or by the
-- authority's, a store of Windows opened with its flags and name, a certificate added to it, the
-- store closed.
pub data CaEvent : Type 0 where
  made_dir : PathBuf → CaEvent
  wrote : PathBuf → List ℕ → CaEvent
  signed_itself signed : CertificateParams → CaEvent
  opened_store : (flags : ℕ) (name : List ℕ) → CaEvent
  installed : List ℕ → CaEvent
  closed_store : CaEvent

-- The count of questions to the host, and the events, the newest first.
pub record Progress : Type 0 where
  pub ticks : ℕ
  pub events : List CaEvent

pub data Ended (A : Type 0) : Type 0 where
  done : A → Progress → Ended A
  failed : CaError → Progress → Ended A

abbrev pub CaStep : Type 0 → Type 0
CaStep A = Progress → Ended A

abbrev pub then_with : {A B : Type 0} → (A → CaStep B) → Ended A → Ended B
then_with f (done a s) = f a s
then_with f (failed e s) = failed e s

infixl 5 ◌>>=◌ ◌>>◌
abbrev pub ◌>>=◌ : {A B : Type 0} → CaStep A → (A → CaStep B) → CaStep B
◌>>=◌ m f s = then_with f (m s)

abbrev pub ◌>>◌ : {B : Type 0} → CaStep (Unit {0}) → CaStep B → CaStep B
◌>>◌ m k s = then_with (λ _. k) (m s)

abbrev pub pure : {A : Type 0} → A → CaStep A
pure a s = done a s

-- `return Err(e)`.
abbrev pub refuse : {A : Type 0} → CaError → CaStep A
refuse e s = failed e s

-- `if let Err(e) = …`, whose error is only a warning.
abbrev pub forgiven : Ended (Unit {0}) → Ended (Unit {0})
forgiven (done u s) = done tt s
forgiven (failed e s) = done tt s

abbrev pub attempt : CaStep (Unit {0}) → CaStep (Unit {0})
attempt m s = forgiven (m s)

-- An answer of the host, which may be an error.
pub data Answer (A : Type 0) : Type 0 where
  value : A → Answer A
  error : String → Answer A

abbrev pub draw : {A : Type 0} → (ℕ → A) → CaStep A
draw oracle s = done (oracle s.ticks) (record s { ticks = suc s.ticks })

abbrev pub note : CaEvent → CaStep (Unit {0})
note e s = done tt (record s { events = e ∷ s.events })

-- `answer.map_err(wrap)?`.
abbrev pub need : {A : Type 0} → (String → CaError) → Answer A → CaStep A
need wrap (value a) s = done a s
need wrap (error e) s = failed (wrap e) s

-- The same for a call that gives nothing; `none` is its success.
abbrev pub no_error : (String → CaError) → Option String → CaStep (Unit {0})
no_error wrap none s = done tt s
no_error wrap (some e) s = failed (wrap e) s

abbrev pub after : {A : Type 0} → Ended A → Progress
after (done a s) = s
after (failed e s) = s

-- From `s` to `t` only events with the property have happened.
pub record Only (P : CaEvent → Type 0) (s t : Progress) : Type 0 where
  pub new : List CaEvent
  pub events : t.events ≡ new ++ s.events
  pub allowed : All P new

module _ {P : CaEvent → Type 0} where
  pub Only-same : {s t : Progress} → t.events ≡ s.events → Only P s t
  Only-same e = record { new = []; events = e; allowed = tt }

  pub Only-trans : {s t u : Progress} → Only P s t → Only P t u → Only P s u
  Only-trans a b = record {
    new = b.new ++ a.new;
    events = rw (b.events, a.events) (sym (append_assoc b.new a.new _));
    allowed = All-append P b.new a.new b.allowed a.allowed;
  }

-- Wherever it starts, the step does only such things.
pub record Does (P : CaEvent → Type 0) {A : Type 0} (m : CaStep A) : Type 0 where
  pub run : (s : Progress) → Only P s (after (m s))

module _ {P : CaEvent → Type 0} {A : Type 0} where
  then_Only :
      {B : Type 0} (s : Progress) (o : Ended B) (f : B → CaStep A)
      → Only P s (after o)
      → ((b : B) → Does P (f b))
      → Only P s (after (then_with f o))
  then_Only s (done b t) f h k = Only-trans h ((k b).run t)
  then_Only s (failed e t) f h k = h

  pub Does-bind :
      {B : Type 0} {m : CaStep B} {f : B → CaStep A}
      → Does P m
      → ((b : B) → Does P (f b))
      → Does P (m >>= f)
  Does-bind {m} {f} h k = record { run = λ s. then_Only s (m s) f (h.run s) k }

  pub Does-then : {m : CaStep (Unit {0})} {k : CaStep A} → Does P m → Does P k → Does P (m >> k)
  Does-then {m} {k} h l = record { run = λ s. then_Only s (m s) (λ _. k) (h.run s) (λ _. l) }

  pub Does-pure : (a : A) → Does P (pure a)
  Does-pure a = record { run = λ s. Only-same refl }

  pub Does-draw : (oracle : ℕ → A) → Does P (draw oracle)
  Does-draw oracle = record { run = λ s. Only-same refl }

  pub Does-refuse : (e : CaError) → Does P (refuse {A = A} e)
  Does-refuse e = record { run = λ s. Only-same refl }

  pub Does-need : (wrap : String → CaError) (a : Answer A) → Does P (need wrap a)
  Does-need wrap (value a) = record { run = λ s. Only-same refl }
  Does-need wrap (error e) = record { run = λ s. Only-same refl }

  pub Does-if : (b : Bool) {m k : CaStep A} → Does P m → Does P k → Does P (if b then m else k)
  Does-if true h l = h
  Does-if false h l = l

module _ {P : CaEvent → Type 0} where
  pub Does-no_error : (wrap : String → CaError) (o : Option String) → Does P (no_error wrap o)
  Does-no_error wrap none = record { run = λ s. Only-same refl }
  Does-no_error wrap (some e) = record { run = λ s. Only-same refl }

  pub Does-attempt : {m : CaStep (Unit {0})} → Does P m → Does P (attempt m)
  Does-attempt {m} h = record { run = λ s. go s (m s) (h.run s) }
    where
      go :
          (s : Progress) (o : Ended (Unit {0})) → Only P s (after o) → Only P s (after (forgiven o))
      go s (done u t) k = k
      go s (failed e t) k = k

  pub Does-note : (e : CaEvent) → P e → Does P (note e)
  Does-note e p = record { run = λ s. record { new = e ∷ []; events = refl; allowed = (p, tt) } }

-- The rules by which `search` follows a step.
pub ruleset does = (
  Does-bind, Does-then, Does-if, Does-pure, Does-draw, Does-need, Does-no_error, Does-note,
  Does-refuse,
)
