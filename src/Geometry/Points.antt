-- ===== src/Geometry/Points.antt =====
-- src/position.cpp, src/orientation.cpp and src/directionalpoint.cpp: sums, differences, quotients and
-- rotations of points. The functions of the C library and apf::math are parameters.
use ssr_pre.Geometry.{Arithmetic, Position, Orientation, DirectionalPoint}

-- atan2(), sqrt(), apf::math::square(), deg2rad() and pi_div_180()
pub record Trigonometry (F : Type 0) : Type 0 where
  pub atan2 : F → F → F
  pub sqrt : F → F
  pub square : F → F
  pub deg2rad : F → F
  pub pi_div_180 : F

-- What the functions need.
pub record Plane (F : Type 0) : Type 0 where
  pub arithmetic : Arithmetic F
  pub trigonometry : Trigonometry F

module _ {F : Type 0} (pl : Plane F) where
  open pl use {arithmetic, trigonometry}
  open arithmetic use {add, subtract, times, divide, cos, sin}

  abbrev pub add_positions : Position F → Position F → Position F
  add_positions a b = record { x = add a.x b.x; y = add a.y b.y }

  abbrev pub subtract_position : Position F → Position F → Position F
  subtract_position a b = record { x = subtract a.x b.x; y = subtract a.y b.y }

  abbrev pub divide_position : Position F → F → Position F
  divide_position a b = record { x = divide a.x b; y = divide a.y b }

  abbrev pub add_orientations : Orientation F → Orientation F → Orientation F
  add_orientations a b = record { azimuth = add a.azimuth b.azimuth }

  abbrev pub subtract_orientation : Orientation F → Orientation F → Orientation F
  subtract_orientation a b = record { azimuth = subtract a.azimuth b.azimuth }

  abbrev pub divide_orientation : Orientation F → F → Orientation F
  divide_orientation a b = record { azimuth = divide a.azimuth b }

  abbrev pub add_point : DirectionalPoint F → DirectionalPoint F → DirectionalPoint F
  add_point a b = record {
    position = add_positions a.position b.position;
    orientation = add_orientations a.orientation b.orientation;
  }

  abbrev pub subtract_point : DirectionalPoint F → DirectionalPoint F → DirectionalPoint F
  subtract_point a b = record {
    position = subtract_position a.position b.position;
    orientation = subtract_orientation a.orientation b.orientation;
  }

  abbrev pub divide_point : DirectionalPoint F → F → DirectionalPoint F
  divide_point a b = record {
    position = divide_position a.position b;
    orientation = divide_orientation a.orientation b;
  }

  -- Position::orientation() and length()
  abbrev pub position_orientation : Position F → Orientation F
  position_orientation p = record {
    azimuth = divide (trigonometry.atan2 p.y p.x) trigonometry.pi_div_180;
  }

  abbrev pub position_length : Position F → F
  position_length p = trigonometry.sqrt (add (trigonometry.square p.x) (trigonometry.square p.y))

  abbrev pub rotate_position : F → Position F → Position F
  rotate_position angle p =
      let phi = trigonometry.deg2rad (add (position_orientation p).azimuth angle) in
      let radius = position_length p in
      record { x = times radius (cos phi); y = times radius (sin phi) }

  abbrev pub rotate_orientation : F → Orientation F → Orientation F
  rotate_orientation angle o = record { azimuth = add o.azimuth angle }

  abbrev pub rotate_point : F → DirectionalPoint F → DirectionalPoint F
  rotate_point angle p = record {
    position = rotate_position angle p.position;
    orientation = rotate_orientation angle p.orientation;
  }
