-- ===== src/Ecu/Serial.antt =====
-- `SerialNetwork` of hsrb_power_ecu/src/serial_network.cpp, over the `ISystemInterface` of i_system_interface.hpp.
pub mod Sending
pub mod Receiving
use hsrb_drivers.Prelude.{
  ℕ, zero, suc, ◌+◌, ◌-◌, ◌*◌, ◌%◌, ◌^◌, min, Bool, true, false, Option, none, some, List, [], ◌∷◌,
  ◌++◌, ltb, leb, ◌==◌, if◌then◌else◌, not, length, take, drop, codes, same_bytes, Method, pure,
  never, ◌>>=◌,
}
use hsrb_drivers.Posix.{
  ErrorCode, errc_success, interrupted, resource_unavailable, invalid_argument,
  operation_in_progress, timed_out, Written, wrote, write_failed, Polled, ready, nothing,
  poll_failed, Slept, slept, stopped, Event, put, taken, heard,
}

-- `open`: a descriptor, or `errno`.
pub data Opened : Type 0 where
  opened open_failed : ℕ → Opened

-- `read`: the bytes that came, or `errno`.
pub data Bytes : Type 0 where
  bytes : List ℕ → Bytes
  read_failed : ℕ → Bytes

-- The calls that set up the device return `none` for 0, and else `errno`; the settings that the source writes into
-- their arguments are left to them. `uname` gives the release of the kernel, if it returns 0.
pub record ISystemInterface : Type 1 where
  pub System : Type 0
  pub now : System → ℕ × System
  pub tcgetattr : ℕ → System → Option ℕ × System
  pub tcsetattr : ℕ → System → Option ℕ × System
  pub tcflush : ℕ → System → Option ℕ × System
  pub get_serial : ℕ → System → Option ℕ × System
  pub set_serial : ℕ → System → Option ℕ × System
  pub uname : System → Option (List ℕ) × System
  pub open_file : List ℕ → System → Opened × System
  pub close_file : ℕ → System → System
  pub read : ℕ → ℕ → System → Bytes × System
  pub write : ℕ → List ℕ → System → Written × System
  pub sleep : ℕ → System → Slept × System
  pub poll : ℕ → ℕ → System → Polled × System

-- The members of the class that change or that are settings, and the bytes on the line, the newest first.
pub record SerialNetwork (System : Type 0) : Type 0 where
  pub fd : ℕ
  pub timeout_ns : ℕ
  pub sleep_tick : ℕ
  pub port_name : List ℕ
  pub system : System
  pub log : List Event

-- `PacketBuffer`, a `boost::circular_buffer`.
pub record PacketBuffer : Type 0 where
  pub capacity : ℕ
  pub content : List ℕ

abbrev pub buffer_size : ℕ
buffer_size = 4000

-- `static_cast<uint32_t>(timeout * 1000000.0)` of the text as a double: a text that is no number, a negative
-- number, or the nanoseconds.
pub data Timeout : Type 0 where
  not_a_number negative : Timeout
  nanoseconds : ℕ → Timeout

-- The bytes are stored until the buffer is full.
abbrev pub push_all : PacketBuffer → List ℕ → PacketBuffer
push_all b [] = b
push_all b (x ∷ xs) =
    if leb b.capacity (length b.content)
    then b
    else push_all (record b { content = b.content ++ (x ∷ []) }) xs

module _ (sys : ISystemInterface) (fuel : ℕ) where
  open sys use {System}

  abbrev pub Call : Type 0 → Type 0
  Call A = Method (SerialNetwork System) A

  -- A constructed network.
  abbrev pub new : System → SerialNetwork System
  new system = record {
    fd = 0;
    timeout_ns = 300000;
    sleep_tick = 10000;
    port_name = codes "/dev/ttyUSB0";
    system = system;
    log = [];
  }

  abbrev pub clock : Call ℕ
  clock s = let r = sys.now s.system in some (r.0, record s { system = r.1 })

  abbrev pub write_bytes : List ℕ → Call Written
  write_bytes data_bytes s =
      let r = sys.write s.fd data_bytes s.system in
      some (r.0, record s { system = r.1; log = put (taken r.0 data_bytes) s.log })

  abbrev pub poll_device : ℕ → Call Polled
  poll_device t s = let r = sys.poll s.fd t s.system in some (r.0, record s { system = r.1 })

  abbrev pub logged : Bytes → List Event → List Event
  logged (bytes bs) log = heard bs log
  logged (read_failed e) log = log

  abbrev pub read_device : ℕ → Call Bytes
  read_device n s =
      let r = sys.read s.fd n s.system in
      some (r.0, record s { system = r.1; log = logged r.0 s.log })

  abbrev pub sleep_for : ℕ → Call Slept
  sleep_for nsec s = let r = sys.sleep nsec s.system in some (r.0, record s { system = r.1 })

  -- A call that sets up the device, and what follows if it returns 0.
  abbrev set_up : (ℕ → System → Option ℕ × System) → Call ErrorCode → Call ErrorCode
  set_up f next s =
      let r = f s.fd s.system in
      let s' : SerialNetwork System = record s { system = r.1 } in
      elim (r.0) [ none ↦ next s' | some e ↦ some (e, s') ]

  -- The first three characters of the release are 4.4.
  abbrev is_old_kernel : Option (List ℕ) → Bool
  is_old_kernel none = false
  is_old_kernel (some release) = same_bytes (take 3 release) (codes "4.4")

  abbrev low_latency : Option (List ℕ) → Call ErrorCode → Call ErrorCode
  low_latency release next =
      if is_old_kernel release then set_up sys.get_serial (set_up sys.set_serial next) else next

  abbrev after_open : Opened → Call ErrorCode
  after_open (open_failed e) = pure e
  after_open (opened fd) = λ s.
      set_up sys.tcgetattr
        (set_up sys.tcsetattr (λ s.
          let r = sys.uname s.system in
          low_latency r.0 (set_up sys.tcflush (pure errc_success)) (record s { system = r.1 })))
        (record s { fd = fd })

  unfoldable pub open_port : Call ErrorCode
  open_port s =
      let r = sys.open_file s.port_name s.system in after_open r.0 (record s { system = r.1 })

  unfoldable pub close_port : Call ErrorCode
  close_port s =
      if s.fd == 0
      then some (errc_success, s)
      else some (errc_success, record s { fd = 0; system = sys.close_file s.fd s.system })

  abbrev set_timeout : Timeout → Call ErrorCode
  set_timeout not_a_number = never
  set_timeout negative = pure invalid_argument
  set_timeout (nanoseconds n) = λ s. some (errc_success, record s { timeout_ns = n })

  -- `Configure` of a text; `none` is the exception of `boost::lexical_cast`.
  unfoldable pub configure : (List ℕ → Timeout) → List ℕ → List ℕ → Call ErrorCode
  configure timeout_of param value s =
      if not (s.fd == 0)
      then some (operation_in_progress, s)
      else if same_bytes param (codes "receive_timeout_ms")
      then set_timeout (timeout_of value) s
      else if same_bytes param (codes "device_name")
      then some (errc_success, record s { port_name = value })
      else some (invalid_argument, s)

  -- The wait of `Send` while the device is busy: `errc_success` when the time is over.
  abbrev pub after_sleep : Slept → (ℕ → Call ErrorCode) → Call ErrorCode
  after_sleep slept again = pure errc_success
  after_sleep (stopped e left) again = if e == interrupted then again left else pure e

  unfoldable pub wait_loop : ℕ → ℕ → Call ErrorCode
  wait_loop zero nsec = never
  wait_loop (suc n) nsec = do result ← sleep_for nsec; after_sleep result (wait_loop n)

  abbrev pub next_round : (ℕ → ℕ → Call ErrorCode) → ℕ → Call ErrorCode
  next_round goes_on send_size = do elapsed ← clock; goes_on elapsed send_size

  abbrev pub after_wait : (ℕ → ℕ → Call ErrorCode) → ℕ → ErrorCode → Call ErrorCode
  after_wait goes_on send_size waited =
      if waited == errc_success then next_round goes_on send_size else pure waited

  abbrev pub after_write : (ℕ → ℕ → Call ErrorCode) → ℕ → ℕ → Written → Call ErrorCode
  after_write goes_on data_length send_size (write_failed e) =
      if e == resource_unavailable
      then (λ s. (wait_loop fuel s.sleep_tick >>= after_wait goes_on send_size) s)
      else pure e
  after_write goes_on data_length send_size (wrote result) =
      if send_size + result == data_length
      then pure errc_success
      else next_round goes_on (send_size + result)

  -- The loop of `Send`.
  unfoldable pub send_loop : ℕ → List ℕ → ℕ → ℕ → ℕ → Call ErrorCode
  send_loop zero data_bytes start elapsed send_size = never
  send_loop (suc n) data_bytes start elapsed send_size = λ s.
      (if ltb (elapsed - start) s.timeout_ns
          then (write_bytes (drop send_size data_bytes)
              >>= after_write (send_loop n data_bytes start) (length data_bytes) send_size)
          else pure timed_out)
        s

  unfoldable pub send : List ℕ → Call ErrorCode
  unfolding send_loop wait_loop
  send data_bytes =
      if ltb buffer_size (length data_bytes)
      then pure invalid_argument
      else (do start ← clock; send_loop fuel data_bytes start start 0)

  abbrev pub stored : PacketBuffer → Bytes → ErrorCode × PacketBuffer
  stored b (bytes bs) = (errc_success, push_all b bs)
  stored b (read_failed e) = (e, b)

  abbrev pub after_poll : PacketBuffer → Polled → Call (ErrorCode × PacketBuffer)
  after_poll b nothing = pure (timed_out, b)
  after_poll b (poll_failed e) = pure (e, b)
  after_poll b ready = do
    r ← read_device (min buffer_size (b.capacity - length b.content))
    pure (stored b r)

  -- `Receive`; every branch of the body of its loop leaves it, so the body runs once at most.
  unfoldable pub receive : PacketBuffer → Call (ErrorCode × PacketBuffer)
  receive b = do
    start ← clock
    λ s.
        (if ltb 0 s.timeout_ns
            then (poll_device s.timeout_ns >>= after_poll b)
            else pure (timed_out, b))
          s
