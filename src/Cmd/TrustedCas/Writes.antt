-- ===== src/Cmd/TrustedCas/Writes.antt =====
-- The texts that the two temporary files of authorities hold once they are written.
use Prim.Native.String.{◌++◌ as text_append}
use text.Mathlib.TextLemmas.{nil-append, append-nil, append_assoc}
use rekor_monitor.Base.{
  ◌≡◌, refl, sym, ◌∙◌, ap, false, Option, some, ok, err, panic, String, List, [], ◌∷◌, ◌++◌, arith,
}
use rekor_monitor.Base.Classes.{◌==◌, string_comparable, same_refl, differ_sym}
use rekor_monitor.Cmd.TrustedCas.{
  FulcioCa, TempFiles, encode_to, write_intermediates, write_authorities,
}
use rekor_monitor.Util.File.{Disk, Written, then_on, then_do}

abbrev pub roots : List FulcioCa → List String
roots [] = []
roots (ca ∷ cas) = ca.root ∷ roots cas

abbrev pub intermediates : List FulcioCa → List String
intermediates [] = []
intermediates (ca ∷ cas) = ca.intermediates ++ intermediates cas

then_on-other :
    (text : String) (w : Written) (next : Disk → Written) (name : String) (v : Option String)
    → w.1 name ≡ v
    → ((d : Disk) → d name ≡ v → (next d).1 name ≡ v)
    → (then_on text w next).1 name ≡ v
then_on-other text (ok _, d) next name v h k = k d h
then_on-other text (err e, d) next name v h k = h
then_on-other text (panic p, d) next name v h k = h

then_do-other :
    (w : Written) (next : Disk → Written) (name : String) (v : Option String)
    → w.1 name ≡ v
    → ((d : Disk) → d name ≡ v → (next d).1 name ≡ v)
    → (then_do w next).1 name ≡ v
then_do-other (ok _, d) next name v h k = k d h
then_do-other (err e, d) next name v h k = h
then_do-other (panic p, d) next name v h k = h

then_on-ok :
    (text : String) (w : Written) (next : Disk → Written)
    → (then_on text w next).0 ≡ ok tt
    → (w.0 ≡ ok tt) × (then_on text w next ≡ next w.1)
then_on-ok text (ok _, d) next h = (refl, refl)
then_on-ok text (err e, d) next h = cc
then_on-ok text (panic p, d) next h = cc

then_do-ok :
    (w : Written) (next : Disk → Written)
    → (then_do w next).0 ≡ ok tt
    → (w.0 ≡ ok tt) × (then_do w next ≡ next w.1)
then_do-ok (ok _, d) next h = (refl, refl)
then_do-ok (err e, d) next h = cc
then_do-ok (panic p, d) next h = cc

module _ (os : TempFiles) where
  -- The blocks of the certificates, one after the other.
  abbrev pub pem_bundle : List String → String
  pem_bundle [] = ""
  pem_bundle (der ∷ ders) = text_append (os.encode_pem der) (pem_bundle ders)

  encode_to-other :
      (file name der : String) (d : Disk)
      → (name == file) ≡ false
      → (encode_to os file der d).1 name ≡ d name
  unfolding encode_to
  encode_to-other file name der d h = ground arith

  encode_to-text :
      (file der t : String) (d : Disk)
      → d file ≡ some t
      → (encode_to os file der d).0 ≡ ok tt
      → (encode_to os file der d).1 file ≡ some (text_append t (os.encode_pem der))
  unfolding encode_to
  encode_to-text file der t d s h = ground (arith, s, same_refl file)

  write_intermediates-other :
      (file name : String) (ders : List String) (d : Disk)
      → (name == file) ≡ false
      → (write_intermediates os file ders d).1 name ≡ d name
  unfolding write_intermediates
  write_intermediates-other file name [] d h = refl
  write_intermediates-other file name (der ∷ ders) d h =
      then_on-other "failed to write Fulcio CA intermediate to temp file" (encode_to os file der d)
        (write_intermediates os file ders) name (d name) (encode_to-other file name der d h)
        (λ d' e. write_intermediates-other file name ders d' h ∙ e)

  write_intermediates-text :
      (file t : String) (ders : List String) (d : Disk)
      → d file ≡ some t
      → (write_intermediates os file ders d).0 ≡ ok tt
      → (write_intermediates os file ders d).1 file ≡ some (text_append t (pem_bundle ders))
  unfolding write_intermediates
  write_intermediates-text file t [] d s h = s ∙ ap (λ u. some u) (sym (append-nil t))
  write_intermediates-text file t (der ∷ ders) d s h =
      let text : String = "failed to write Fulcio CA intermediate to temp file" in
      let first = encode_to os file der d in
      let (w, e) = then_on-ok text first (write_intermediates os file ders) h in
      ap (λ (p : Written). p.1 file) e
      ∙ write_intermediates-text file (text_append t (os.encode_pem der)) ders first.1
          (encode_to-text file der t d s w) (ap (λ (p : Written). p.0) (sym e) ∙ h)
      ∙ ap (λ u. some u) (append_assoc t (os.encode_pem der) (pem_bundle ders))

  pem_bundle-append :
      (xs ys : List String) → pem_bundle (xs ++ ys) ≡ text_append (pem_bundle xs) (pem_bundle ys)
  pem_bundle-append [] ys = sym (nil-append (pem_bundle ys))
  pem_bundle-append (x ∷ xs) ys =
      ap (text_append (os.encode_pem x)) (pem_bundle-append xs ys)
      ∙ sym (append_assoc (os.encode_pem x) (pem_bundle xs) (pem_bundle ys))

  module _ (root_file file : String) (apart : (root_file == file) ≡ false) where
    pub write_authorities-other :
        (name : String) (cas : List FulcioCa) (d : Disk)
        → (name == root_file) ≡ false
        → (name == file) ≡ false
        → (write_authorities os root_file file cas d).1 name ≡ d name
    unfolding write_authorities
    write_authorities-other name [] d h k = refl
    write_authorities-other name (ca ∷ cas) d h k =
        then_on-other "failed to write Fulcio CA root to temp file"
          (encode_to os root_file ca.root d) _ name (d name)
          (encode_to-other root_file name ca.root d h)
          (λ d' e.
            then_do-other (write_intermediates os file ca.intermediates d') _ name (d name)
              (write_intermediates-other file name ca.intermediates d' k ∙ e)
              (λ d'' f. write_authorities-other name cas d'' h k ∙ f))

    pub write_authorities-text :
        (t u : String) (cas : List FulcioCa) (d : Disk)
        → d root_file ≡ some t
        → d file ≡ some u
        → (write_authorities os root_file file cas d).0 ≡ ok tt
        → ((write_authorities os root_file file cas d).1 root_file
            ≡ some (text_append t (pem_bundle (roots cas))))
          × ((write_authorities os root_file file cas d).1 file
              ≡ some (text_append u (pem_bundle (intermediates cas))))
    unfolding write_authorities
    write_authorities-text t u [] d s v h =
        (s ∙ ap (λ x. some x) (sym (append-nil t)), v ∙ ap (λ x. some x) (sym (append-nil u)))
    write_authorities-text t u (ca ∷ cas) d s v h =
        let text : String = "failed to write Fulcio CA root to temp file" in
        let first = encode_to os root_file ca.root d in
        let rest = write_authorities os root_file file cas in
        let then_rest =
          λ (d' : Disk). then_do (write_intermediates os file ca.intermediates d') rest in
        let (w, e) = then_on-ok text first then_rest h in
        let second = write_intermediates os file ca.intermediates first.1 in
        let (x, f) = then_do-ok second rest (ap (λ (p : Written). p.0) (sym e) ∙ h) in
        let run = e ∙ f in
        let (a, b) =
          write_authorities-text (text_append t (os.encode_pem ca.root))
            (text_append u (pem_bundle ca.intermediates)) cas second.1
            (write_intermediates-other file root_file ca.intermediates first.1 apart
              ∙ encode_to-text root_file ca.root t d s w)
            (write_intermediates-text file u ca.intermediates first.1
              (encode_to-other root_file file ca.root d (differ_sym root_file file apart) ∙ v) x)
            (ap (λ (p : Written). p.0) (sym run) ∙ h) in
        (
          ap (λ (p : Written). p.1 root_file) run
              ∙ a
              ∙ ap (λ y. some y) (append_assoc t (os.encode_pem ca.root) (pem_bundle (roots cas))),
          ap (λ (p : Written). p.1 file) run
              ∙ b
              ∙ ap (λ y. some y)
                  (append_assoc u (pem_bundle ca.intermediates) (pem_bundle (intermediates cas)))
              ∙ ap (λ y. some (text_append u y))
                  (sym (pem_bundle-append ca.intermediates (intermediates cas))),
        )
