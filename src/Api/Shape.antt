-- ===== src/Api/Shape.antt =====
-- What the schemas make of the stored rows: the values that their constraints accept. Rows of that
-- shape fit the response models.
use fleet_tracking_backend.Prelude.{
  ◌≡◌, refl, Bool, true, ◌&&◌, Option, none, some, List, [], ◌∷◌, arith, is_some, All, All-filter,
  All-perm, Permᴰ-sym, All-filter,
}
use fleet_tracking_backend.Store.{Waypoint, BusRoute, Vehicle, User, Database}
use fleet_tracking_backend.Admin.{Field, unset, null, value, unless_null, if_set}
use fleet_tracking_backend.Store.Session.{Session}
use fleet_tracking_backend.Api.Responses.{
  EmailCheck, route_out, user_out, both_some, all_of, in_range, each, option_map,
}
use fleet_tracking_backend.Api.Bodies.{name_ok, waypoints_ok, code_ok, field_ok}

abbrev pub IsShapedRoute : BusRoute → Type 0
IsShapedRoute r = (name_ok r.name ≡ true) × (waypoints_ok r.waypoints ≡ true)

abbrev pub IsShapedVehicle : Vehicle → Type 0
IsShapedVehicle v = (code_ok v.code ≡ true) × (name_ok v.name ≡ true)

-- The address is a normal form.
abbrev pub IsShapedUser : EmailCheck → User → Type 0
IsShapedUser email u = email.normalize u.email ≡ some u.email

pub record IsShaped (email : EmailCheck) (d : Database) : Type 0 where
  pub routes : All IsShapedRoute d.routes
  pub vehicles : All IsShapedVehicle d.vehicles
  pub users : All (IsShapedUser email) d.users

pub and_true : (a b : Bool) → (a && b) ≡ true → (a ≡ true) × (b ≡ true)
and_true a b e = ground arith

pub all_in_range : (ws : List Waypoint) → waypoints_ok ws ≡ true → all_of in_range ws ≡ true
unfolding waypoints_ok
all_in_range ws e = (and_true _ _ e).1

some_cons :
    {A : Type 0} (o : Option A) (os : Option (List A))
    → is_some o ≡ true
    → is_some os ≡ true
    → is_some (both_some o os) ≡ true
unfolding both_some
some_cons none os e f = cc
some_cons (some a) none e f = cc
some_cons (some a) (some rest) e f = refl

-- A list becomes a list where each entry becomes something.
pub each_some :
    {A B : Type 0} (f : A → Option B) (xs : List A)
    → All (λ x. is_some (f x) ≡ true) xs
    → is_some (each f xs) ≡ true
unfolding each
each_some f [] h = refl
each_some f (x ∷ xs) h = some_cons (f x) (each f xs) h.0 (each_some f xs h.1)

pub is_some-option_map :
    {A B : Type 0} (f : A → B) (o : Option A) → is_some o ≡ true → is_some (option_map f o) ≡ true
unfolding option_map
is_some-option_map f none e = cc
is_some-option_map f (some a) e = refl

pub route_out_some : (r : BusRoute) → IsShapedRoute r → is_some (route_out r) ≡ true
unfolding route_out
route_out_some r h = rw (all_in_range r.waypoints h.1)

pub user_out_some :
    (email : EmailCheck) (u : User) → IsShapedUser email u → is_some (user_out email u) ≡ true
unfolding user_out option_map
user_out_some email u h = rw h

-- What holds of all rows holds of the rows in any order.
pub listed_lem :
    {Row : Type 0} (P : Row → Type 0) (s : Session) (le : Row → Row → Bool) (rows : List Row)
    → All P rows
    → All P (s.order_by le (s.select (λ r. true) rows))
listed_lem P s le rows a =
    All-perm P (Permᴰ-sym (s.order_by_perm le (s.select (λ r. true) rows)))
      (All-perm P (Permᴰ-sym (s.select_perm (λ r. true) rows)) (All-filter P (λ r. true) rows a))

-- A field that a PATCH leaves alone keeps its old value.
pub unless_null_ok :
    {A : Type 0} (test : A → Bool) (field : Field A) (old : A)
    → field_ok test field ≡ true
    → test old ≡ true
    → test (unless_null field old) ≡ true
unfolding field_ok unless_null
unless_null_ok test unset old e f = f
unless_null_ok test null old e f = f
unless_null_ok test (value a) old e f = e

some_value : {A : Type 0} {a b : A} → some a ≡ some b → a ≡ b
some_value e = cc

pub if_set_ok :
    {A : Type 0} (test : A → Bool) (field : Field A) (old new : A)
    → field_ok test field ≡ true
    → test old ≡ true
    → if_set field old ≡ some new
    → test new ≡ true
unfolding field_ok if_set
if_set_ok test unset old new e f g = rw (← some_value g) f
if_set_ok test null old new e f g = cc
if_set_ok test (value a) old new e f g = rw (← some_value g) e
