-- ===== src/Orchestration/Store/Codec/Splitting.antt =====
-- src/orchestration/store/fs.rs, module serde_json: the splitting functions find the parts
-- that were joined.
use Prim.Native.Char.{Char}
use Prim.Native.String.{String, ◌++◌}
use text.Mathlib.TextLemmas.{cons-append, nil-append}
use text.Mathlib.TextLemmas
use void_control.Base.{
  ◌≡◌, refl, sym, ap, ◌∙◌, inl, inr, false, some, List, [], ◌∷◌, cons_char, AllChars,
  AllChars-append, All, is_plain, is_empty_text, join,
}
use void_control.Orchestration.Store.Codec.{
  escape, split_escaped_from, split_escaped, split_left_from, split_right_from, split_once_escaped,
}
use void_control.Orchestration.Store.Codec.Escaping.{
  split_escaped_from-escape, split_left_from-escape, split_right_from-escape,
}

-- A part that `split_escaped` takes as a whole.
abbrev pub IsPart : String → Type 0
IsPart p =
    (o t : String)
    → split_escaped_from ";" o false (p ++ t) ≡ split_escaped_from ";" (o ++ p) false t

split_escaped_from-last :
    (o p : String) → IsPart p → split_escaped_from ";" o false p ≡ (o ++ p) ∷ []
split_escaped_from-last o p is =
    ap (split_escaped_from ";" o false) (sym (TextLemmas.append-nil p))
    ∙ is o ""
    ∙ unfold split_escaped_from in refl

split_escaped_from-separator :
    (o t : String)
    → split_escaped_from ";" o false (";" ++ t) ≡ o ∷ split_escaped_from ";" "" false t
split_escaped_from-separator o t = rw (cons-append, nil-append) (unfold split_escaped_from in refl)

split_escaped_from-join :
    (o p : String) (ps : List String)
    → All IsPart (p ∷ ps)
    → split_escaped_from ";" o false (join ";" (p ∷ ps)) ≡ (o ++ p) ∷ ps
unfolding join
split_escaped_from-join o p [] is = split_escaped_from-last o p is.0
split_escaped_from-join o p (q ∷ ps) is =
    is.0 o (";" ++ join ";" (q ∷ ps))
    ∙ split_escaped_from-separator (o ++ p) (join ";" (q ∷ ps))
    ∙ ap (◌∷◌ (o ++ p)) (split_escaped_from-join "" q ps is.1 ∙ ap (λ s. s ∷ ps) (nil-append q))

-- The parts of a list that is not empty are found again.
pub split_escaped-join :
    (p : String) (ps : List String)
    → All IsPart (p ∷ ps)
    → split_escaped (join ";" (p ∷ ps)) ";" ≡ p ∷ ps
unfolding split_escaped
split_escaped-join p ps is = split_escaped_from-join "" p ps is ∙ ap (λ s. s ∷ ps) (nil-append p)

pub escape-IsPart : (s : String) → IsPart (escape s)
escape-IsPart s o t = split_escaped_from-escape ";" o s t (inl refl)

pub pair-IsPart : (k v : String) → IsPart (escape k ++ "=" ++ escape v)
pair-IsPart k v o t =
    ap (split_escaped_from ";" o false) (TextLemmas.append_assoc (escape k) ("=" ++ escape v) t)
    ∙ split_escaped_from-escape ";" o k (("=" ++ escape v) ++ t) (inl refl)
    ∙ rw (cons-append, nil-append, cons-append) equals
    ∙ split_escaped_from-escape ";" ((o ++ escape k) ++ "=") v t (inl refl)
    ∙ ap (λ r. split_escaped_from ";" r false t)
        (TextLemmas.append_assoc (o ++ escape k) "=" (escape v)
          ∙ TextLemmas.append_assoc o (escape k) ("=" ++ escape v))
  where
    equals :
        split_escaped_from ";" (o ++ escape k) false (cons_char "=" (escape v ++ t))
        ≡ split_escaped_from ";" ((o ++ escape k) ++ "=") false (escape v ++ t)
    equals = unfold split_escaped_from in refl

pub split_once_escaped-pair :
    (k v : String)
    → split_once_escaped (escape k ++ "=" ++ escape v) "=" ≡ some (escape k, escape v)
unfolding split_once_escaped
split_once_escaped-pair k v =
    split_left_from-escape "=" "" k ("=" ++ escape v) (inr refl)
    ∙ rw (cons-append, nil-append, nil-append) (unfold split_left_from in refl)
    ∙ ap (λ r. some (escape k, r)) right
  where
    right : split_right_from "" false (escape v) ≡ escape v
    right =
        ap (split_right_from "" false) (sym (TextLemmas.append-nil (escape v)))
        ∙ split_right_from-escape "" v ""
        ∙ unfold split_right_from in (nil-append (escape v))

pub is_empty_text-append :
    (s : String) (c : Char) (t : String) → is_empty_text (s ++ cons_char c t) ≡ false
is_empty_text-append String.[] c t = rw nil-append refl
is_empty_text-append (String.◌∷◌ d s) c t = rw cons-append refl

pub is_empty_text-join :
    (p : String) (ps : List String)
    → is_empty_text p ≡ false
    → is_empty_text (join ";" (p ∷ ps)) ≡ false
unfolding join
is_empty_text-join p [] h = h
is_empty_text-join String.[] (q ∷ ps) h = cc
is_empty_text-join (String.◌∷◌ c p) (q ∷ ps) h = rw cons-append refl

pub is_empty_text-pair : (s v : String) → is_empty_text (s ++ "=" ++ v) ≡ false
is_empty_text-pair s v = rw (cons-append, nil-append) (is_empty_text-append s "=" v)

-- Parts of one line are joined to one line.
pub join-AllChars :
    (ps : List String) → All (AllChars is_plain) ps → AllChars is_plain (join ";" ps)
unfolding join
join-AllChars [] h = tt
join-AllChars (p ∷ []) h = h.0
join-AllChars (p ∷ q ∷ ps) h =
    AllChars-append is_plain p (";" ++ join ";" (q ∷ ps)) h.0
      (rw (cons-append, nil-append) (refl, join-AllChars (q ∷ ps) h.1))
