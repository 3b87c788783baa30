-- ===== src/Accounts/Users.antt =====
-- accounts/managers.py, `RegistrationForm` of accounts/forms.py and the `register` view. What Django does
-- itself (`normalize_email`, the field and model checks, folding of case) is a parameter; a password
-- stands for its hash.
pub mod Signup
pub mod Superuser
use Prim.Native.String.{String}
use text.Mathlib.Text.{◌==◌ as str_eq}
use shop_orbit.Base.{
  ℕ, Bool, true, false, Option, none, some, List, [], ◌∷◌, ◌++◌, not, ◌&&◌, ◌||◌, any_of,
  if◌then◌else◌,
}

-- `User`, with the columns that are set here
pub record User : Type 0 where
  pub id : ℕ
  pub email : String
  pub full_name : String
  pub phone_number : String
  pub is_active : Bool
  pub is_staff : Bool
  pub is_superuser : Bool
  pub password : String

-- A value of a keyword argument
pub data Value : Type 0 where
  flag : Bool → Value
  words : String → Value

-- What Django does: `normalize_email`, `strip().lower()`, the key by which `iexact` compares, the cleaning
-- of a posted field, and the checks of an instance but for its uniqueness
pub record Django : Type 0 where
  pub normalize_email : String → String
  pub lowered : String → String
  pub fold : String → String
  pub clean : String → String → Option String
  pub is_valid : User → Bool

abbrev pub is_blank : String → Bool
is_blank t = str_eq t ""

-- `extra_fields`, a dictionary
abbrev pub Fields : Type 0
Fields = List (String × Value)

abbrev pub get : String → Fields → Option Value
get k [] = none
get k ((j, v) ∷ fields) = if str_eq j k then some v else get k fields

-- `extra_fields.setdefault(k, v)`
abbrev pub setdefault : String → Value → Fields → Fields
setdefault k v fields = elim (get k fields) [ none ↦ fields ++ (k, v) ∷ [] | some w ↦ fields ]

-- `extra_fields.get(k) is True`
abbrev pub is_true : Option Value → Bool
is_true (some (flag true)) = true
is_true _ = false

-- What the keyword arguments of `User(...)` may name: the columns of `User`, of its bases and of
-- `TimeStampedModel`. A row leaves out its time stamps, and its key is the fresh one.
unfoldable pub is_column : String → Bool
is_column k =
    str_eq k "full_name"
    || str_eq k "phone_number"
    || str_eq k "is_active"
    || str_eq k "is_staff"
    || str_eq k "is_superuser"
    || str_eq k "email"
    || str_eq k "password"
    || str_eq k "last_login"
    || str_eq k "created_at"
    || str_eq k "updated_at"
    || str_eq k "id"
    || str_eq k "pk"

abbrev flag_or : Bool → Option Value → Bool
flag_or d (some (flag b)) = b
flag_or d _ = d

abbrev text_or_blank : Option Value → String
text_or_blank (some (words t)) = t
text_or_blank _ = ""

pub data UserError : Type 0 where
  no_email not_staff not_superuser : UserError
  -- `TypeError: User() got unexpected keyword arguments`
  unexpected_argument : UserError
  -- `ValidationError` of `full_clean`
  not_valid : UserError

pub data Made : Type 0 where
  made : User → List User → Made
  raised : UserError → Made

-- The row of `self.model(email=email, **extra_fields)`
abbrev pub row_of : ℕ → String → String → Fields → User
row_of id email password fields = record {
  id = id;
  email = email;
  full_name = text_or_blank (get "full_name" fields);
  phone_number = text_or_blank (get "phone_number" fields);
  is_active = flag_or true (get "is_active" fields);
  is_staff = flag_or false (get "is_staff" fields);
  is_superuser = flag_or false (get "is_superuser" fields);
  password = password;
}

-- whether every keyword is a column
abbrev pub known_columns : Fields → Bool
known_columns [] = true
known_columns ((k, v) ∷ fields) = is_column k && known_columns fields

module _ (django : Django) (id : ℕ) where
  -- `_create_user(email, password, **extra_fields)`
  unfoldable pub create_row : String → String → Fields → List User → Made
  create_row email password fields users =
      let user = row_of id (django.normalize_email email) password fields in
      if is_blank email
      then raised no_email
      else if not (known_columns fields)
      then raised unexpected_argument
      else if not (django.is_valid user) || any_of (λ (u : User). str_eq u.email user.email) users
      then raised not_valid
      else made user (user ∷ users)

  -- `create_user`
  unfoldable pub create_user : String → String → Fields → List User → Made
  unfolding create_row
  create_user email password fields =
      create_row email password
        (setdefault "is_superuser" (flag false) (setdefault "is_staff" (flag false) fields))

  -- The checks of `create_superuser` on the flags, and the account
  unfoldable pub create_checked : String → String → Fields → List User → Made
  unfolding create_row
  create_checked email password fields users =
      if not (is_true (get "is_staff" fields))
      then raised not_staff
      else if not (is_true (get "is_superuser" fields))
      then raised not_superuser
      else create_row email password fields users

  -- `create_superuser`
  unfoldable pub create_superuser : String → String → Fields → List User → Made
  unfolding create_checked
  create_superuser email password extra = create_checked email password (
      setdefault "role" (words "admin")
        (setdefault "is_superuser" (flag true) (setdefault "is_staff" (flag true) extra)))

-- What is posted to the registration page
pub record Registration : Type 0 where
  pub full_name : String
  pub email : String
  pub phone_number : String
  pub password1 : String
  pub password2 : String

-- The answer: a redirect to the profile of a user who is logged in already, the page again, or the
-- profile of the fresh account, which is logged in and welcomed
pub data Registered : Type 0 where
  to_profile form_again : Registered
  welcome : ℕ → Registered

-- `cleaned_data.get(...)` of a field that may have failed
abbrev both_given : Option String → Option String → Bool
both_given (some a) (some b) = not (is_blank a) && not (is_blank b)
both_given _ _ = false

abbrev differ : Option String → Option String → Bool
differ (some a) (some b) = not (str_eq a b)
differ _ _ = false

-- the account of `form.save()`
abbrev pub account : ℕ → String → String → String → String → User
account id name email phone password = record {
  id = id;
  email = email;
  full_name = name;
  phone_number = phone;
  is_active = true;
  is_staff = false;
  is_superuser = false;
  password = password;
}

module _ (django : Django) where
  -- `clean_email`, after the field's own cleaning
  abbrev pub clean_email : List User → Option String → Option String
  clean_email users none = none
  clean_email users (some t) =
      if any_of (λ (u : User). str_eq (django.fold u.email) (django.fold (django.lowered t))) users
      then none
      else some (django.lowered t)

  -- The account that a valid form makes, and `none` where the form is not valid
  abbrev pub valid_account :
      ℕ
      → List User
      → Option String
      → Option String
      → Option String
      → Option String
      → Option String
      → Option User
  valid_account id users (some name) (some email) (some phone) (some password1) (some password2) =
      let user = account id name email phone password1 in
      if both_given (some password1) (some password2) && differ (some password1) (some password2)
      then none
      else if not (django.is_valid user) || any_of (λ (u : User). str_eq u.email email) users
      then none
      else some user
  valid_account id users _ _ _ _ _ = none

  -- `RegistrationForm(request.POST)`
  unfoldable pub registration_form : ℕ → Registration → List User → Option User
  registration_form id post users =
      valid_account id users (django.clean "full_name" post.full_name)
        (clean_email users (django.clean "email" post.email))
        (django.clean "phone_number" post.phone_number) (django.clean "password1" post.password1)
        (django.clean "password2" post.password2)

  -- `register` on a POST, with whether the user is logged in
  unfoldable pub register : Bool → ℕ → Registration → List User → Registered × List User
  register true id post users = (to_profile, users)
  register false id post users = elim (registration_form id post users) [
    | none ↦ (form_again, users)
    | some user ↦ (welcome user.id, user ∷ users)
  ]
