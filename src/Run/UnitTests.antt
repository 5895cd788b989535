-- ===== src/Run/UnitTests.antt =====
-- The unit tests of node/run/src/cli.rs, where clap has found the value of the option, and that
-- they pass.
use braidpool.Base.{◌≡◌, refl, none, some, ok, UnitTest, assert, str_eq}
use braidpool.Run.{parse}

-- `node --config-file=conf.toml`
abbrev it_should_build_struct_for_parsing_cli_options : UnitTest
it_should_build_struct_for_parsing_cli_options =
    let args = parse (some "conf.toml") in assert (str_eq args.config_file "conf.toml")

-- `node`
abbrev it_should_get_default_values_for_args : UnitTest
it_should_get_default_values_for_args =
    let args = parse none in assert (str_eq args.config_file "config.toml")

it_should_build_struct_for_parsing_cli_options_lem :
    it_should_build_struct_for_parsing_cli_options ≡ ok tt
unfolding parse
it_should_build_struct_for_parsing_cli_options_lem = refl

it_should_get_default_values_for_args_lem : it_should_get_default_values_for_args ≡ ok tt
unfolding parse
it_should_get_default_values_for_args_lem = refl
