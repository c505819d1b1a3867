-- ===== src/Autofix/Syntax.antt =====
-- What src/slopsentinel/autofix.py reads from Python's `ast`, `tokenize` and `ast.literal_eval`: the
-- values of these modules, which a `Python` gives for a source text.
use slopsentinel.Base.{ℕ, Text, List, Option, Bool}

pub record Alias : Type 0 where
  pub name : Text
  pub asname : Option Text

-- What a statement of a body shows: a text that stands alone is an `Expr` of a `str` constant.
pub data StmtKind : Type 0 where
  text_alone : StmtKind
  imports : List Alias → StmtKind
  imports_from : Option Text → StmtKind
  function class : StmtKind
  -- `return True` and `return False`, or what stands in a body besides
  returns_bool : Bool → StmtKind
  other_stmt : StmtKind

pub record Stmt : Type 0 where
  pub kind : StmtKind
  pub lineno : ℕ
  pub end_lineno : ℕ

-- The place of an expression.
pub record Span : Type 0 where
  pub lineno : ℕ
  pub end_lineno : ℕ
  pub col_offset : ℕ
  pub end_col_offset : ℕ

-- The nodes that `ast.walk` lists. An assignment shows its only target, if that is a name, and
-- whether its value is a `str` constant; an annotation shows the `str` constants within it.
pub data Node : Type 0 where
  import_node : ℕ → ℕ → List Alias → Node
  import_from_node : ℕ → ℕ → Option Text → List Alias → Node
  function_node : List Stmt → List Text → Node
  class_node : List Stmt → Node
  assign_node : ℕ → Option Text → Bool → Node
  ann_assign_node : ℕ → Option Text → Bool → List Text → Node
  arg_node : List Text → Node
  joined_str_node : List Text → Node
  match_node : Node
  if_node : ℕ → ℕ → Span → List Stmt → List Stmt → Node
  other_node : Node

pub record Tree : Type 0 where
  pub body : List Stmt
  pub walk : List Node

pub data TokenKind : Type 0 where
  comment_token string_token other_token : TokenKind

pub record Token : Type 0 where
  pub kind : TokenKind
  pub string : Text
  pub start_row : ℕ
  pub start_col : ℕ
  pub end_row : ℕ
  pub end_col : ℕ

-- `none` stands for an exception: a `SyntaxError` of `ast.parse`, an error of the tokenizer at any
-- token, and a literal that is refused or is no `str`.
pub record Python : Type 0 where
  pub parse : Text → Option Tree
  pub generate_tokens : Text → Option (List Token)
  pub literal_eval : Text → Option Text
  pub repr : Text → Text
