-- ===== src/Report/Csv/Split.antt =====
-- Lines of fields between commas.
use Prim.Native.Char.{Char, code}
use Prim.Native.String.{String}
use text.Mathlib.Text as Text
use boost_openmethod_benchma.Common.{
  ◌≡◌, refl, ap, ◌∙◌, Bool, true, false, not, ◌&&◌, Option, none, some, List, [], ◌∷◌, ◌==◌,
  if◌then◌else◌, and_left, and_right,
}
use boost_openmethod_benchma.Cli.Print.{all_chars}

abbrev pub append : String → String → String
append String.[] t = t
append (String.◌∷◌ c s) t = String.◌∷◌ c (append s t)

-- the fields of a line, with a comma between them
abbrev pub join : List String → String
join [] = String.[]
join (f ∷ []) = f
join (f ∷ g ∷ fs) = append f (String.◌∷◌ "," (join (g ∷ fs)))

-- one more character in front of the first field
abbrev pub put : Char → List String → List String
put c [] = String.◌∷◌ c String.[] ∷ []
put c (f ∷ fs) = String.◌∷◌ c f ∷ fs

-- the fields of a line that has no quotes
unfoldable pub split : String → List String
split String.[] = String.[] ∷ []
split (String.◌∷◌ c s) =
    let fields = split s in if code c == 44 then String.[] ∷ fields else put c fields

abbrev pub no_comma : Char → Bool
no_comma c = not (code c == 44)

abbrev pub lacks_comma : String → Bool
lacks_comma s = all_chars no_comma s

abbrev pub all_lack : List String → Bool
all_lack [] = true
all_lack (f ∷ fs) = lacks_comma f && all_lack fs

-- The field in the column of that name, where the first line names the columns.
abbrev pub column : (name : String) → (columns fields : List String) → Option String
column n [] fs = none
column n (c ∷ cs) [] = none
column n (c ∷ cs) (f ∷ fs) = let later = column n cs fs in if Text.◌==◌ c n then some f else later

pub not-true : (b : Bool) → not b ≡ true → b ≡ false
not-true true h = cc
not-true false h = refl

split-one : (f : String) → lacks_comma f ≡ true → split f ≡ f ∷ []
unfolding split
split-one String.[] h = refl
split-one (String.◌∷◌ c s) h =
    let other : (code c == 44) ≡ false = not-true _ (and_left (no_comma c) _ h) in
    rw (other, split-one s (and_right (no_comma c) _ h))

split-first :
    (f s : String) → lacks_comma f ≡ true → split (append f (String.◌∷◌ "," s)) ≡ f ∷ split s
unfolding split
split-first String.[] s h = refl
split-first (String.◌∷◌ c f) s h =
    let other : (code c == 44) ≡ false = not-true _ (and_left (no_comma c) _ h) in
    rw (other, split-first f s (and_right (no_comma c) _ h))

-- A line of fields without commas is taken apart into these.
pub split-join :
    (f : String) (fs : List String) → all_lack (f ∷ fs) ≡ true → split (join (f ∷ fs)) ≡ f ∷ fs
split-join f [] h = split-one f (and_left (lacks_comma f) _ h)
split-join f (g ∷ fs) h =
    split-first f (join (g ∷ fs)) (and_left (lacks_comma f) _ h)
    ∙ ap (◌∷◌ f) (split-join g fs (and_right (lacks_comma f) _ h))

pub lacks-append :
    (s t : String) → lacks_comma s ≡ true → lacks_comma t ≡ true → lacks_comma (append s t) ≡ true
lacks-append String.[] t h k = k
lacks-append (String.◌∷◌ c s) t h k =
    rw (and_left (no_comma c) _ h) (lacks-append s t (and_right (no_comma c) _ h) k)
