-- ===== src/Main/Options.antt =====
-- src/main.cpp: whatever options are accepted, the configuration is one that the server can run with.
use mathlib.Core.Option
use network_arc_rajasurya.Prelude.{
  ℕ, ◌+◌, ◌*◌, ◌≤◌, ◌<◌, ◌≡◌, ◌^◌, refl, true, ◌&&◌, ◌||◌, not, List, [], ◌∷◌, Option, none, some,
  Bytes, codes, equal, length, ◌==◌, arith, either_branch, either_case, subst, ap,
}
use network_arc_rajasurya.Config.{
  ServerConfig, Limits, milliseconds, LogLevel, notice, debug, default_config, default_limits,
}
use network_arc_rajasurya.Connection.Rounds.{IsRoomy}
use network_arc_rajasurya.Request.{Request}
use network_arc_rajasurya.Response.{Response}
use network_arc_rajasurya.Server.{PollAnswer, serve, new_server}
use network_arc_rajasurya.Server.Invariant.{IsSound}
use network_arc_rajasurya.Server.History.{AllRoundsFresh, accepts_in, server_of, serve-IsSound}
use network_arc_rajasurya.Main.{
  Doubles, Arguments, configured, help, invalid_option, parse_number, port_value,
  idle_timeout_value, max_connections_value, parse_flag, with_number, parse_valued, parse_arguments,
}

-- What the options may set is in its range, and what they may not set is as by default.
pub record IsUsable (config : ServerConfig) : Type 0 where
  pub port_le : config.port ≤ 65535
  pub idle_ge : milliseconds 1 ≤ config.idle_timeout
  pub idle_le : config.idle_timeout ≤ milliseconds (86400 * 1000)
  pub connections_ge : 1 ≤ config.max_connections
  pub connections_le : config.max_connections ≤ 10000
  pub same_limits : config.limits ≡ default_limits
  pub same_water : config.output_high_water ≡ default_config.output_high_water
  pub same_linger : config.linger_timeout ≡ default_config.linger_timeout

-- Of an outcome, where there is a configuration.
abbrev pub Usable : Arguments → Type 0
Usable (configured config) = IsUsable config
Usable help = Unit {0}
Usable (invalid_option arg) = Unit {0}

module _ (d : Doubles) where
  -- A number that is accepted is within its bounds.
  Between : d.Double → d.Double → Option d.Double → Type 0
  Between low high none = Unit {0}
  Between low high (some v) = (d.at_most low v ≡ true) × (d.at_most v high ≡ true)

  parse_number-Between :
      (text : Bytes) (low high : d.Double) → Between low high (parse_number d text low high)
  unfolding parse_number Between
  parse_number-Between text low high =
      let v = (d.strtod text).0 in
      let consumed = (d.strtod text).1 in
      either_case (Between low high)
        (consumed == 0
          || not (consumed == length text)
          || not (d.at_most low v && d.at_most v high))
        none (some v) (λ _. tt) (λ fine. (ground arith, ground arith))

  abbrev InRange : ℕ → ℕ → Option ℕ → Type 0
  InRange low high none = Unit {0}
  InRange low high (some n) = (low ≤ n) × (n ≤ high)

  -- A conversion of what is accepted, by a bound on the conversion.
  map-InRange :
      (low high : d.Double) (m n : ℕ) (f : d.Double → ℕ) (r : Option d.Double)
      → ((v : d.Double) → d.at_most low v ≡ true → d.at_most v high ≡ true → (m ≤ f v) × (f v ≤ n))
      → Between low high r
      → InRange m n (Option.map f r)
  unfolding Between
  map-InRange low high m n f none bound b = tt
  map-InRange low high m n f (some v) bound (l, h) = bound v l h

  port-InRange : (text : Bytes) → InRange 0 65535 (port_value d text)
  unfolding port_value
  port-InRange text =
      map-InRange (d.of_ℕ 0) (d.of_ℕ 65535) 0 65535 d.truncate _
        (λ v. d.truncate_bounds 0 65535 v (omega arith) (omega arith))
        (parse_number-Between text (d.of_ℕ 0) (d.of_ℕ 65535))

  connections-InRange : (text : Bytes) → InRange 1 10000 (max_connections_value d text)
  unfolding max_connections_value
  connections-InRange text =
      map-InRange (d.of_ℕ 1) (d.of_ℕ 10000) 1 10000 d.truncate _
        (λ v. d.truncate_bounds 1 10000 v (omega arith) (omega arith))
        (parse_number-Between text (d.of_ℕ 1) (d.of_ℕ 10000))

  idle-InRange :
      (text : Bytes)
      → InRange (milliseconds 1) (milliseconds (86400 * 1000)) (idle_timeout_value d text)
  unfolding idle_timeout_value
  idle-InRange text =
      map-InRange d.thousandth (d.of_ℕ 86400) (milliseconds 1) (milliseconds (86400 * 1000))
        (λ v. milliseconds (d.truncate (d.times_1000 v))) _
        (λ v l h.
          let (low, high) = d.times_1000_bounds 86400 v (omega arith) l h in
          let (m, n) =
            d.truncate_bounds 1 (86400 * 1000) (d.times_1000 v) (omega arith) (omega arith) low
              high in
          (omega (arith, m), omega (arith, n)))
        (parse_number-Between text d.thousandth (d.of_ℕ 86400))

  with_number-Usable :
      (m n : ℕ) (r : Option ℕ) (arg : Bytes) (again : ℕ → Arguments)
      → InRange m n r
      → ((k : ℕ) → m ≤ k → k ≤ n → Usable (again k))
      → Usable (with_number d r arg again)
  with_number-Usable m n none arg again b h = tt
  with_number-Usable m n (some k) arg again (l, u) h = h k l u

  abbrev Keeps : (ServerConfig → Arguments) → Type 0
  Keeps again = (config : ServerConfig) → IsUsable config → Usable (again config)

  parse_flag-Usable :
      (arg : Bytes) (config : ServerConfig) (again : ServerConfig → Arguments)
      (otherwise : Arguments)
      → IsUsable config
      → Keeps again
      → Usable otherwise
      → Usable (parse_flag d arg config again otherwise)
  unfolding parse_flag
  parse_flag-Usable arg config again otherwise u keeps o =
      either_branch Usable (equal arg (codes "--help") || equal arg (codes "-h")) _ _ tt (
        either_branch Usable (equal arg (codes "--quiet")) _ _
          (keeps (record config { log_level = notice }) (relevel config notice u))
          (either_branch Usable (equal arg (codes "--verbose")) _ _
            (keeps (record config { log_level = debug }) (relevel config debug u)) o))
    where
      relevel :
          (config : ServerConfig) (level : LogLevel)
          → IsUsable config
          → IsUsable (record config { log_level = level })
      relevel config level u = ground arith

  parse_valued-Usable :
      (arg value : Bytes) (config : ServerConfig) (again : ServerConfig → Arguments)
      → IsUsable config
      → Keeps again
      → Usable (parse_valued d arg value config again)
  unfolding parse_valued
  parse_valued-Usable arg value config again u keeps =
      either_branch Usable (equal arg (codes "--host")) _ _
        (keeps (record config { host = value }) (ground arith))
        (either_branch Usable (equal arg (codes "--port")) _ _
          (with_number-Usable 0 65535 (port_value d value) arg
            (λ n. again (record config { port = n })) (port-InRange value)
            (λ n l h. keeps (record config { port = n }) (ground arith)))
          (either_branch Usable (equal arg (codes "--idle-timeout")) _ _
            (with_number-Usable (milliseconds 1) (milliseconds (86400 * 1000))
              (idle_timeout_value d value) arg (λ n. again (record config { idle_timeout = n }))
              (idle-InRange value)
              (λ n l h. keeps (record config { idle_timeout = n }) (ground arith)))
            (either_branch Usable (equal arg (codes "--max-connections")) _ _
              (with_number-Usable 1 10000 (max_connections_value d value) arg
                (λ n. again (record config { max_connections = n })) (connections-InRange value)
                (λ n l h. keeps (record config { max_connections = n }) (ground arith)))
              tt)))

  parse_arguments-Keeps :
      (args : List Bytes) (config : ServerConfig)
      → IsUsable config
      → Usable (parse_arguments d args config)
  unfolding parse_arguments
  parse_arguments-Keeps [] config u = u
  parse_arguments-Keeps (arg ∷ []) config u =
      parse_flag-Usable arg config (parse_arguments d []) (invalid_option arg) u
        (parse_arguments-Keeps []) tt
  parse_arguments-Keeps (arg ∷ value ∷ rest) config u =
      parse_flag-Usable arg config (parse_arguments d (value ∷ rest)) _ u
        (parse_arguments-Keeps (value ∷ rest))
        (parse_valued-Usable arg value config (parse_arguments d rest) u
          (parse_arguments-Keeps rest))

  -- Whatever the arguments are, a configuration that is accepted has a port of at most 65535, an idle
  -- timeout from a millisecond to 86400 seconds, from 1 to 10000 connections, and the limits on
  -- requests, the high water mark and the linger timeout of the default configuration, for every
  -- `double` with the laws of Doubles.
  pub parse_arguments-Usable : (args : List Bytes) → Usable (parse_arguments d args default_config)
  parse_arguments-Usable args = parse_arguments-Keeps args default_config (record {
    port_le = omega arith;
    idle_ge = omega arith;
    idle_le = omega arith;
    connections_ge = omega arith;
    connections_le = omega arith;
    same_limits = refl;
    same_water = refl;
    same_linger = refl;
  })

-- Such a configuration leaves the room that the connections need.
pub usable-IsRoomy : (config : ServerConfig) → IsUsable config → IsRoomy config
usable-IsRoomy config u =
    let head = ap (λ (l : Limits). l.max_header_bytes) u.same_limits in
    let body = ap (λ (l : Limits). l.max_body_bytes) u.same_limits in
    record {
      room = omega (arith, head, body);
      body_room = omega (arith, body);
      output_room = omega (arith, u.same_water);
    }

-- Whatever arguments `main` accepts, for every `double` with the laws of Doubles, and whatever `poll`
-- and `accept` answer, where the sockets are fresh and `accept` gives fewer than 2^64 - 1 answers, the
-- server with the resulting configuration is sound after every history.
pub main-IsSound :
    (d : Doubles) (handler : Request → Option Response) (args : List Bytes) (config : ServerConfig)
    (answers : List PollAnswer)
    → parse_arguments d args default_config ≡ configured config
    → AllRoundsFresh answers
    → accepts_in answers + 1 < 2 ^ 64
    → IsSound config (server_of (serve handler answers (new_server config)))
main-IsSound d handler args config answers e fresh few =
    let u = subst Usable e (parse_arguments-Usable d args) in
    serve-IsSound (usable-IsRoomy config u) handler answers fresh few
