-- ===== src/Geometry.antt =====
-- src/position.h, src/orientation.h, src/directionalpoint.h and src/loudspeaker.h: the data that the
-- program passes about. A float is a value of a type `F`; what the code computes with floats is the
-- record `Floats`, which a build of the program gets from its compiler and C library.
pub mod Points
use ssr_pre.Common.{ℕ, Bool, false}

pub record Floats (F : Type 0) : Type 0 where
  -- The value of a literal that is a whole number.
  pub lit : ℕ → F
  -- operator> of float
  pub greater : F → F → Bool
  -- apf::math::dB2linear() and linear2dB()
  pub db_to_linear : F → F
  pub linear_to_db : F → F

-- The operators of float, the cosine and the sine of the C library, and a decimal fraction n / 10^k.
pub record Arithmetic (F : Type 0) : Type 0 where
  pub add : F → F → F
  pub subtract : F → F → F
  pub times : F → F → F
  pub divide : F → F → F
  pub negate : F → F
  pub cos : F → F
  pub sin : F → F
  pub decimal : ℕ → ℕ → F

pub record Position (F : Type 0) : Type 0 where
  pub x : F
  pub y : F

pub record Orientation (F : Type 0) : Type 0 where
  pub azimuth : F

pub record DirectionalPoint (F : Type 0) : Type 0 where
  pub position : Position F
  pub orientation : Orientation F

pub data LoudspeakerModel : Type 0 where
  unknown normal subwoofer : LoudspeakerModel

pub record Loudspeaker (F : Type 0) : Type 0 where
  pub point : DirectionalPoint F
  pub model : LoudspeakerModel
  pub weight : F
  pub delay : F
  pub mute : Bool
  pub active : Bool

module _ {F : Type 0} (fl : Floats F) where
  -- Position() and Orientation()
  abbrev pub origin : Position F
  origin = record { x = fl.lit 0; y = fl.lit 0 }

  abbrev pub facing : ℕ → Orientation F
  facing degrees = record { azimuth = fl.lit degrees }

  abbrev pub default_loudspeaker : DirectionalPoint F → Loudspeaker F
  default_loudspeaker point = record {
    point = point;
    model = LoudspeakerModel.normal;
    weight = fl.lit 1;
    delay = fl.lit 0;
    mute = false;
    active = false;
  }
