-- ===== src/Projects/Device.antt =====
-- What the project code asks of the machine: its environment, its file system, the programs it runs,
-- and the parsing of JSON and of URLs. `P` is a path, which need not be text.
use baijimu_codex_connector.Json.{Value}
use baijimu_codex_connector.Text.{Chars}
use baijimu_codex_connector.Prelude.{ℕ, Bool, List, Option, Result, String}

-- `std::path::Component`, as far as it is told apart.
pub data Component : Type 0 where
  normal other : Component

pub data Arg (P : Type 0) : Type 0 where
  text_arg : Chars → Arg P
  path_arg : P → Arg P

pub record Command (P : Type 0) : Type 0 where
  pub program : P
  pub args : List (Arg P)
  pub envs : List (Chars × Chars)

pub record Output : Type 0 where
  pub success : Bool
  pub stdout : List ℕ
  pub stderr : List ℕ

-- `std::io::Error`, as far as it is read.
pub record IoError : Type 0 where
  pub already_exists : Bool
  pub description : Chars

pub record Device (S P : Type 0) : Type 0 where
  pub projects_dir : Option P
  pub home_dir : P
  pub baijimu_binary : Option Chars
  pub of_text : Chars → P
  pub to_str : P → Option Chars
  pub display : P → Chars
  pub is_absolute : P → Bool
  pub components : P → List Component
  pub join : P → Chars → P
  pub parent : P → Option P
  pub exists : P → S → Bool
  pub is_file : P → S → Bool
  pub is_dir : P → S → Bool
  pub canonicalize : P → S → Result IoError P
  pub create_dir : P → S → Result IoError (Unit {0}) × S
  pub create_dir_all : P → S → Result IoError (Unit {0}) × S
  pub output : Command P → S → Result IoError Output × S
  pub parse_json : List ℕ → Result Chars Value
  pub url_path : Chars → Option Chars
  pub from_chars : Chars → String
