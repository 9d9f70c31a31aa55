-- ===== src/Main.antt =====
-- src/main.cpp: the options, and the exit status. `double` and `std::strtod` are a parameter; usage
-- texts, signal handlers and the log are not modelled.
pub mod Options
use mathlib.Core.Option
use network_arc_rajasurya.Prelude.{
  ℕ, ◌≤◌, ◌≡◌, ◌*◌, ◌^◌, Bool, true, false, ◌&&◌, ◌||◌, not, List, [], ◌∷◌, Option, none, some,
  Bytes, codes, equal, length, ◌==◌, if◌then◌else◌,
}
use network_arc_rajasurya.Config.{ServerConfig, milliseconds, notice, debug, default_config}
use network_arc_rajasurya.Request.{Request}
use network_arc_rajasurya.Response.{Response}
use network_arc_rajasurya.SocketUtils.{Created, listening, throws}
use network_arc_rajasurya.Server.{new_server, PollAnswer, Loop, stopped, threw, serve}

-- What the program asks of `double`: reading a text, comparison, and conversion to an integer. The laws
-- hold of IEEE 754 binary64, where every integer up to 2^53 is a value: conversion truncates, so it
-- keeps such bounds, and a product is rounded monotonically, where 0.001 * 1000 is 1.0.
pub record Doubles : Type 1 where
  pub Double : Type 0
  pub of_ℕ : ℕ → Double
  pub thousandth : Double
  -- the value, and how many bytes of the text were read
  pub strtod : Bytes → Double × ℕ
  pub at_most : Double → Double → Bool
  -- `static_cast` to an integer type, of a value that is not negative
  pub truncate : Double → ℕ
  pub times_1000 : Double → Double
  pub truncate_bounds :
      (low high : ℕ) (v : Double)
      → low ≤ 2 ^ 53
      → high ≤ 2 ^ 53
      → at_most (of_ℕ low) v ≡ true
      → at_most v (of_ℕ high) ≡ true
      → (low ≤ truncate v) × (truncate v ≤ high)
  pub times_1000_bounds :
      (high : ℕ) (v : Double)
      → high * 1000 ≤ 2 ^ 53
      → at_most thousandth v ≡ true
      → at_most v (of_ℕ high) ≡ true
      → (at_most (of_ℕ 1) (times_1000 v) ≡ true)
        × (at_most (times_1000 v) (of_ℕ (high * 1000)) ≡ true)

-- What `parse_arguments` comes to: the configuration, the exit of `--help`, or a message about an
-- option.
pub data Arguments : Type 0 where
  configured : ServerConfig → Arguments
  help : Arguments
  invalid_option : Bytes → Arguments

module _ (d : Doubles) where
  open d use {Double, of_ℕ, thousandth, strtod, at_most, truncate, times_1000}

  unfoldable pub parse_number : Bytes → Double → Double → Option Double
  parse_number text low high =
      let (value, consumed) = strtod text in
      if consumed == 0
        || not (consumed == length text)
        || not (at_most low value && at_most value high)
      then none
      else some value

  -- The values of the three options that take a number.
  unfoldable pub port_value : Bytes → Option ℕ
  port_value text = Option.map truncate (parse_number text (of_ℕ 0) (of_ℕ 65535))

  unfoldable pub idle_timeout_value : Bytes → Option ℕ
  idle_timeout_value text =
      Option.map (λ v. milliseconds (truncate (times_1000 v)))
        (parse_number text thousandth (of_ℕ 86400))

  unfoldable pub max_connections_value : Bytes → Option ℕ
  max_connections_value text = Option.map truncate (parse_number text (of_ℕ 1) (of_ℕ 10000))

  -- An option that stands alone.
  unfoldable pub parse_flag :
      Bytes → ServerConfig → (ServerConfig → Arguments) → Arguments → Arguments
  parse_flag arg config again otherwise =
      if equal arg (codes "--help") || equal arg (codes "-h")
      then help
      else if equal arg (codes "--quiet")
      then again (record config { log_level = notice })
      else if equal arg (codes "--verbose")
      then again (record config { log_level = debug })
      else otherwise

  abbrev pub with_number : Option ℕ → Bytes → (ℕ → Arguments) → Arguments
  with_number none arg again = invalid_option arg
  with_number (some n) arg again = again n

  -- An option with the argument behind it.
  unfoldable pub parse_valued :
      Bytes → Bytes → ServerConfig → (ServerConfig → Arguments) → Arguments
  parse_valued arg value config again =
      if equal arg (codes "--host")
      then again (record config { host = value })
      else if equal arg (codes "--port")
      then with_number (port_value value) arg (λ n. again (record config { port = n }))
      else if equal arg (codes "--idle-timeout")
      then with_number (idle_timeout_value value) arg
          (λ n. again (record config { idle_timeout = n }))
      else if equal arg (codes "--max-connections")
      then with_number (max_connections_value value) arg
          (λ n. again (record config { max_connections = n }))
      else invalid_option arg

  -- The loop, over the arguments behind the program's name.
  unfoldable pub parse_arguments : List Bytes → ServerConfig → Arguments
  parse_arguments [] config = configured config
  parse_arguments (arg ∷ []) config =
      parse_flag arg config (parse_arguments []) (invalid_option arg)
  parse_arguments (arg ∷ value ∷ rest) config =
      parse_flag arg config (parse_arguments (value ∷ rest))
        (parse_valued arg value config (parse_arguments rest))

  module _ (handler : Request → Option Response) where
    -- `server.run`: 0 when it returns, 1 when it throws.
    abbrev pub loop_status : Loop → ℕ
    loop_status (stopped s) = 0
    loop_status (threw error s) = 1

    -- The server's constructor, and what follows it.
    unfoldable pub server_status : Created → ServerConfig → List PollAnswer → ℕ
    server_status (throws message) config answers = 1
    server_status (listening fd) config answers =
        loop_status (serve handler answers (new_server config))

    -- The exit status. What creating the listening socket and `poll` answer depends on the
    -- configuration.
    unfoldable pub exit_status :
        Arguments → (ServerConfig → Created) → (ServerConfig → List PollAnswer) → ℕ
    unfolding server_status
    exit_status (configured config) create answers =
        server_status (create config) config (answers config)
    exit_status help create answers = 0
    exit_status (invalid_option arg) create answers = 2

    unfoldable pub main :
        List Bytes → (ServerConfig → Created) → (ServerConfig → List PollAnswer) → ℕ
    main args = exit_status (parse_arguments args default_config)
