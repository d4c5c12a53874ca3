-- ===== src/Tray/Dialog/Shown.antt =====
-- What the user sees of a consent request in launcher/xlpod-launcher/src/consent_messagebox.rs.
use Prim.Native.Char.{Char, code, nul}
use Prim.Native.String.{[] as empty, ◌∷◌ as chr}
use xlpod.Common.{
  inl, inr, In, ℕ, ◌≤◌, ◌≡◌, refl, sym, ◌∙◌, ap, Bool, false, nat_beq, ◌||◌, String, List, [], ◌∷◌,
  ◌++◌, All, map, arith,
}
use xlpod.Common.Unicode.{in_front, utf16, encode_utf16}
use xlpod.Auth.{
  Scope, FilePath, fs_read, fs_write, run_python, excel_com, ai_provider_call, ai_codegen_write,
  ai_exec_python, bundle_read, bundle_write,
}
use xlpod.Consent.{ConsentRequest}
use xlpod.Tray.Dialog.{scope_label, join, roots_text, body_text, body_w, wide_text}
use mathlib.Core.List.{append_assoc, append-nil}

-- A text has a NUL.
abbrev pub has_nul : String → Bool
has_nul empty = false
has_nul (chr c s) = nat_beq (code c) 0 || has_nul s

has_nul-in_front :
    (s t : String) → has_nul s ≡ false → has_nul t ≡ false → has_nul (in_front s t) ≡ false
has_nul-in_front empty t h k = k
has_nul-in_front (chr c s) t h k = ground (arith, has_nul-in_front s t)

encode_utf16-in_front :
    (s t : String) → encode_utf16 (in_front s t) ≡ encode_utf16 s ++ encode_utf16 t
unfolding encode_utf16
encode_utf16-in_front empty t = refl
encode_utf16-in_front (chr c s) t =
    rw (encode_utf16-in_front s t)
      (sym (append_assoc (utf16 (code c)) (encode_utf16 s) (encode_utf16 t)))

-- Units that are read on.
wide_text-append :
    (us more : List ℕ) → All (λ u. 1 ≤ u) us → wide_text (us ++ more) ≡ us ++ wide_text more
wide_text-append [] more h = refl
wide_text-append (u ∷ us) more h = ground (arith, wide_text-append us more h.1)

units : (c : Char) → nat_beq (code c) 0 ≡ false → All (λ u. 1 ≤ u) (utf16 (code c))
unfolding utf16
units c h = ground arith

-- A text without NUL is read on to its end.
wide_text-encode_utf16 :
    (s : String) (more : List ℕ)
    → has_nul s ≡ false
    → wide_text (encode_utf16 s ++ more) ≡ encode_utf16 s ++ wide_text more
unfolding encode_utf16
wide_text-encode_utf16 empty more h = refl
wide_text-encode_utf16 (chr c s) more h =
    let here : nat_beq (code c) 0 ≡ false = ground arith in
    let there : has_nul s ≡ false = ground arith in
    ap wide_text (append_assoc (utf16 (code c)) (encode_utf16 s) more)
    ∙ (wide_text-append (utf16 (code c)) (encode_utf16 s ++ more) (units c here)
        ∙ (ap (λ l. utf16 (code c) ++ l) (wide_text-encode_utf16 s more there)
            ∙ sym (append_assoc (utf16 (code c)) (encode_utf16 s) (wide_text more))))

has_nul-join :
    (separator : String) (ss : List String)
    → has_nul separator ≡ false
    → All (λ s. has_nul s ≡ false) ss
    → has_nul (join separator ss) ≡ false
unfolding join
has_nul-join separator [] h k = refl
has_nul-join separator (s ∷ []) h k = k.0
has_nul-join separator (s ∷ t ∷ more) h k =
    has_nul-in_front s _ k.0
      (has_nul-in_front separator _ h (has_nul-join separator (t ∷ more) h k.1))

has_nul-scope_label : (s : Scope) → has_nul (scope_label s) ≡ false
unfolding scope_label
has_nul-scope_label fs_read = refl
has_nul-scope_label fs_write = refl
has_nul-scope_label run_python = refl
has_nul-scope_label excel_com = refl
has_nul-scope_label ai_provider_call = refl
has_nul-scope_label ai_codegen_write = refl
has_nul-scope_label ai_exec_python = refl
has_nul-scope_label bundle_read = refl
has_nul-scope_label bundle_write = refl

labels : (ss : List Scope) → All (λ s. has_nul s ≡ false) (map scope_label ss)
labels [] = tt
labels (s ∷ ss) = (has_nul-scope_label s, labels ss)

-- What the user sees of a request.
abbrev pub seen : (FilePath → String) → ConsentRequest → List ℕ
seen display req = wide_text (body_w display req)

-- What stands before the origin.
abbrev pub opening_text : String
opening_text = "Allow this website to talk to xlpod on your machine?\n\nOrigin:\n  "

in_front_assoc : (s t u : String) → in_front (in_front s t) u ≡ in_front s (in_front t u)
in_front_assoc empty t u = refl
in_front_assoc (chr c s) t u = ap (chr c) (in_front_assoc s t u)

-- A text stands somewhere in another.
abbrev pub Part : String → String → Type 0
Part s t = (front back : String) × (t ≡ in_front front (in_front s back))

Part-here : (s back : String) → Part s (in_front s back)
Part-here s back = ("", back, refl)

Part-behind : (s front t : String) → Part s t → Part s (in_front front t)
Part-behind s front t (f, b, e) =
    (in_front front f, b, ap (in_front front) e ∙ sym (in_front_assoc front f (in_front s b)))

Part-before : (s t back : String) → Part s t → Part s (in_front t back)
Part-before s t back (f, b, e) = (
  f,
  in_front b back,
  ap (λ u. in_front u back) e
      ∙ (in_front_assoc f (in_front s b) back ∙ ap (in_front f) (in_front_assoc s b back)),
)

in_front_empty : (s : String) → s ≡ in_front s ""
in_front_empty empty = refl
in_front_empty (chr c s) = ap (chr c) (in_front_empty s)

Part-join : (separator s : String) (ss : List String) → In s ss → Part s (join separator ss)
unfolding join
Part-join separator s [] m = absurd m
Part-join separator s (t ∷ []) (inl e) = rw e ("", "", in_front_empty t)
Part-join separator s (t ∷ []) (inr m) = absurd m
Part-join separator s (t ∷ u ∷ more) (inl e) = rw e (Part-here t _)
Part-join separator s (t ∷ u ∷ more) (inr m) =
    Part-behind s t _ (Part-behind s separator _ (Part-join separator s (u ∷ more) m))

In-map : {A : Type 0} (f : A → String) (a : A) (xs : List A) → In a xs → In (f a) (map f xs)
In-map f a [] m = absurd m
In-map f a (x ∷ xs) (inl e) = inl (ap f e)
In-map f a (x ∷ xs) (inr m) = inr (In-map f a xs m)

-- A text is read up to its first NUL.
read_to_nul :
    (s t : String) (more : List ℕ)
    → has_nul s ≡ false
    → wide_text (encode_utf16 (in_front s (chr nul t)) ++ more) ≡ encode_utf16 s
unfolding encode_utf16 utf16
read_to_nul s t more h = rw (encode_utf16-in_front s (chr nul t)) (
    ap wide_text (append_assoc (encode_utf16 s) (encode_utf16 (chr nul t)) more)
    ∙ (wide_text-encode_utf16 s (encode_utf16 (chr nul t) ++ more) h ∙ append-nil (encode_utf16 s)))

module _ (display : FilePath → String) where
  displayed :
      (ps : List FilePath)
      → All (λ p. has_nul (display p) ≡ false) ps
      → All (λ s. has_nul s ≡ false) (map display ps)
  displayed [] h = tt
  displayed (p ∷ ps) h = (h.0, displayed ps h.1)

  has_nul-roots_text :
      (ps : List FilePath)
      → All (λ p. has_nul (display p) ≡ false) ps
      → has_nul (roots_text display ps) ≡ false
  unfolding roots_text
  has_nul-roots_text [] h = refl
  has_nul-roots_text (p ∷ ps) h = has_nul-join "\n  " _ refl (displayed (p ∷ ps) h)

  abbrev after_scopes : ConsentRequest → String
  after_scopes req = in_front "\n\nFilesystem roots:\n  " (
      in_front (roots_text display req.fs_roots) "\n\nClick Yes only if you initiated this action.")

  abbrev after_origin : ConsentRequest → String
  after_origin req =
      in_front "\n\nScopes:\n  "
        (in_front (join ", " (map scope_label req.scopes)) (after_scopes req))

  has_nul-body_text :
      (req : ConsentRequest)
      → has_nul req.origin ≡ false
      → All (λ p. has_nul (display p) ≡ false) req.fs_roots
      → has_nul (body_text display req) ≡ false
  unfolding body_text
  has_nul-body_text req o r = has_nul-in_front req.origin (after_origin req) o (
      has_nul-in_front (join ", " (map scope_label req.scopes)) (after_scopes req)
        (has_nul-join ", " (map scope_label req.scopes) refl (labels req.scopes))
        (has_nul-in_front (roots_text display req.fs_roots)
          "\n\nClick Yes only if you initiated this action." (has_nul-roots_text req.fs_roots r)
          refl))

  -- A whole dialog: the user sees a text in which the origin, every scope and every root stand.
  pub record ShownWhole (req : ConsentRequest) : Type 0 where
    pub text : String
    pub read : seen display req ≡ encode_utf16 text
    pub origin : Part req.origin text
    pub scopes : (s : Scope) → In s req.scopes → Part (scope_label s) text
    pub roots : (p : FilePath) → In p req.fs_roots → Part (display p) text

  Part-roots_text :
      (p : FilePath) (ps : List FilePath) → In p ps → Part (display p) (roots_text display ps)
  unfolding roots_text
  Part-roots_text p [] m = absurd m
  Part-roots_text p (q ∷ ps) m = Part-join "\n  " (display p) _ (In-map display p (q ∷ ps) m)

  -- Where neither the origin nor a root has a NUL, the user sees a text in which the origin, the
  -- label of every scope and the path of every root of the request stand in full.
  pub seen_whole :
      (req : ConsentRequest)
      → has_nul req.origin ≡ false
      → All (λ p. has_nul (display p) ≡ false) req.fs_roots
      → ShownWhole req
  unfolding body_w body_text
  seen_whole req o r = record {
    text = body_text display req;
    read =
        wide_text-encode_utf16 (body_text display req) (0 ∷ []) (has_nul-body_text req o r)
        ∙ append-nil (encode_utf16 (body_text display req));
    origin = Part-behind req.origin opening_text _ (Part-here req.origin (after_origin req));
    scopes = λ s m.
        let listed = Part-join ", " (scope_label s) _ (In-map scope_label s req.scopes m) in
        Part-behind (scope_label s) opening_text _ (
          Part-behind (scope_label s) req.origin _ (
            Part-behind (scope_label s) "\n\nScopes:\n  " _
              (Part-before (scope_label s) _ (after_scopes req) listed)));
    roots = λ p m. Part-behind (display p) opening_text _ (
        Part-behind (display p) req.origin _ (
          Part-behind (display p) "\n\nScopes:\n  " _ (
            Part-behind (display p) (join ", " (map scope_label req.scopes)) _ (
              Part-behind (display p) "\n\nFilesystem roots:\n  " _ (
                Part-before (display p) _ "\n\nClick Yes only if you initiated this action."
                  (Part-roots_text p req.fs_roots m))))));
  }

  -- Where the origin of a request has a NUL, the user sees nothing of what stands behind it: neither
  -- the rest of the origin nor a scope nor a root.
  pub seen_cut :
      (req : ConsentRequest) (front back : String)
      → has_nul front ≡ false
      → req.origin ≡ in_front front (chr nul back)
      → seen display req ≡ encode_utf16 (in_front opening_text front)
  unfolding body_w body_text
  seen_cut req front back h e = rw e (
      ap (λ t. wide_text (encode_utf16 t ++ (0 ∷ [])))
        (ap (in_front opening_text) (in_front_assoc front (chr nul back) (after_origin req))
          ∙ sym (in_front_assoc opening_text front (chr nul (in_front back (after_origin req)))))
      ∙ read_to_nul (in_front opening_text front) (in_front back (after_origin req)) (0 ∷ []) h)
