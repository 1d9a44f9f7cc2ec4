-- ===== src/Cgos/Driver.antt =====
-- `HsrbCgosLib` of hsrb_cgos_driver/src/hsrb_cgos_driver/hsrb_cgos_lib.cpp, over `ISystemInterface`.
use hsrb_drivers.Prelude.{
  ℕ, ◌/◌, ◌^◌, Bool, true, false, Option, none, some, ltb, ◌==◌, if◌then◌else◌,
}

pub record CgosctrlIn : Type 0 where
  pub fct : ℕ
  pub handle : ℕ
  pub type : ℕ
  pub par0 : ℕ
  pub par1 : ℕ
  pub par2 : ℕ
  pub par3 : ℕ

pub record CgosctrlOut : Type 0 where
  pub status : ℕ
  pub ret0 : ℕ
  pub ret1 : ℕ

-- What `ioctl` gives: `failed` for a negative return, else the number of bytes that it wrote, and what it
-- left in the output buffer.
pub data Answer : Type 0 where
  failed : Answer
  returned : ℕ → CgosctrlOut → Answer

-- `ISystemInterface`, on the state of the system. A file descriptor is `none` for -1, and `open_file` gives
-- `none` for a negative return; its path and its flags are the constant ones of the source.
pub record ISystemInterface : Type 1 where
  pub System : Type 0
  pub open_file : System → Option ℕ × System
  pub close_file : ℕ → System → System
  pub ioctl : Option ℕ → ℕ → CgosctrlIn → System → Answer × System

pub record HsrbCgosLib (System : Type 0) : Type 0 where
  pub fd : Option ℕ
  pub last_error : ℕ
  pub system : System

abbrev pub cgos_ioctl_code : ℕ
cgos_ioctl_code = 44444

abbrev pub cgos_drv_ver_major : ℕ
cgos_drv_ver_major = 1

-- `sizeof(cgosctrl_out)`
abbrev pub cgosctrl_out_size : ℕ
cgosctrl_out_size = 12

-- The request codes.
abbrev pub cgos_drv_get_version : ℕ
cgos_drv_get_version = 0

abbrev pub cgos_board_close : ℕ
cgos_board_close = 1

abbrev pub cgos_board_count : ℕ
cgos_board_count = 2

abbrev pub cgos_board_open : ℕ
cgos_board_open = 3

abbrev pub cgos_io_read : ℕ
cgos_io_read = 41

abbrev pub cgos_io_write : ℕ
cgos_io_write = 42

module _ (interface : ISystemInterface) where
  abbrev pub Library : Type 0
  Library = HsrbCgosLib (interface.System)

  -- A library that has no device open.
  abbrev pub new : interface.System → Library
  new system = record { fd = none; last_error = 0; system = system }

  -- What `CgosDriver` makes of the answer: `none` for false, else `rets`.
  abbrev pub judged : Library → Answer → Option (ℕ × ℕ) × Library
  judged c failed = (none, c)
  judged c (returned cb out) =
      if ltb cb cgosctrl_out_size
      then (none, c)
      else if out.status == 0
      then (some (out.ret0, out.ret1), c)
      else (none, record c { last_error = out.status })

  abbrev pub cgos_driver : ℕ → ℕ → ℕ → ℕ → ℕ → ℕ → ℕ → Library → Option (ℕ × ℕ) × Library
  cgos_driver fct handle type par0 par1 par2 par3 c =
      let request : CgosctrlIn = record {
        fct = fct;
        handle = handle;
        type = type;
        par0 = par0;
        par1 = par1;
        par2 = par2;
        par3 = par3;
      } in
      let answered = interface.ioctl c.fd cgos_ioctl_code request c.system in
      judged (record c { system = answered.1 }) answered.0

  abbrev close_open : Library → Option ℕ → Bool × Library
  close_open c none = (false, c)
  close_open c (some fd) = (true, record c { fd = none; system = interface.close_file fd c.system })

  abbrev pub finalize : Library → Bool × Library
  finalize c = close_open c c.fd

  -- The version check of `Initialize`.
  abbrev pub check_version : Option (ℕ × ℕ) × Library → Bool × Library
  check_version (none, c) = (false, c)
  check_version (some (version, ret1), c) =
      if version / 2 ^ 24 == cgos_drv_ver_major then (true, c) else (false, (finalize c).1)

  abbrev opened : Library → Option ℕ × interface.System → Bool × Library
  opened c (none, system) = (false, record c { system = system })
  opened c (some fd, system) =
      check_version
        (cgos_driver cgos_drv_get_version 0 0 0 0 0 0 (record c { fd = some fd; system = system }))

  abbrev pub initialize : Library → Bool × Library
  initialize c = opened c (interface.open_file c.system)

  -- The first of the returned numbers, where the caller passes `pret0`.
  abbrev ret0 : Option (ℕ × ℕ) × Library → Option ℕ × Library
  ret0 (none, c) = (none, c)
  ret0 (some (x, y), c) = (some x, c)

  -- True or false, where the caller passes no pointer.
  abbrev succeeded : Option (ℕ × ℕ) × Library → Bool × Library
  succeeded (none, c) = (false, c)
  succeeded (some x, c) = (true, c)

  abbrev pub board_open : ℕ → ℕ → ℕ → Library → Option ℕ × Library
  board_open board_class num flags c =
      ret0 (cgos_driver cgos_board_open 0 num board_class flags 0 0 c)

  abbrev pub board_close : ℕ → Library → Bool × Library
  board_close handle c = succeeded (cgos_driver cgos_board_close handle 0 0 0 0 0 c)

  abbrev pub get_io_count : ℕ → Library → Option ℕ × Library
  get_io_count handle c = ret0 (cgos_driver cgos_board_count handle 0 0 0 0 0 c)

  abbrev pub io_read : ℕ → ℕ → Library → Option ℕ × Library
  io_read handle unit c = ret0 (cgos_driver cgos_io_read handle unit 0 0 0 0 c)

  abbrev pub io_write : ℕ → ℕ → ℕ → Library → Bool × Library
  io_write handle unit write_data c =
      succeeded (cgos_driver cgos_io_write handle unit write_data 0 0 0 c)
