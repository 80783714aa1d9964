-- ===== src/Lib.antt =====
-- rust-sqlpackage builds a dacpac from a project of T-SQL files. A script passes the preprocessor,
-- which rewrites what the sqlparser crate cannot read, and its statements are read by token parsers
-- that all stand on one base: a position over a vector of tokens. The model that they fill is written
-- as XML. This library models that base, the cutting of a script into batches, the preprocessor, the
-- parsers of columns, of constraints and of the smaller statements, the helpers that write XML, the
-- registry of columns that resolves names for it, and the collations of the project.
--
-- Files and the code that they model:
--   Token               the tokens of the sqlparser crate as the program's patterns see them, and the
--                       record Sqlparser of what is called of that crate: tokenize, display, debug, and
--                       str::to_uppercase. Each is an argument of the functions that use it.
--   TokenParser         src/parser/token_parser_base.rs, impl TokenParser; the same names. A method on
--                       &mut self is a function to the new parser, with its Option in front. `Literals`,
--                       `Words`, `Groups` and `Listed` hold the methods by what they read, `Method` the
--                       calls as data; `Cursor`, `Bounds`, `Groups/Balanced`, `Groups/Sound` and
--                       `Listed/Values` the theorems; `Gaps` numbers the white space of a statement.
--   Identifier          src/parser/identifier_utils.rs: bracketing of names; `Format` prints tokens,
--                       `Qualified` has the names of two parts.
--   Util                src/util.rs, on the bytes of a text.
--   Preprocess          src/parser/preprocess_parser.rs: PreprocessTokenParser::preprocess is `run` over
--                       `step`; `Steps` has the attempts at a position, `Scan` needs_preprocessing.
--                       `Replace`, `Extract`, `Copy`, `Lost`, `Safe`, `Attempts` and `Ends` are theorems.
--   Synonym             src/parser/synonym_parser.rs; `Target` and `Create` are theorems.
--   Sequence            src/parser/sequence_parser.rs; `Options`, `Run` and `Ends` are theorems.
--   Storage             src/parser/storage_parser.rs: both copies of each parser, on a text and on
--                       tokens, run the same steps here; `Partition` is theorems.
--   Trigger             src/parser/trigger_parser.rs; `Clause` is theorems.
--   Security            src/parser/security_parser.rs: SecurityTokenParser, in `User`, `Role` and
--                       `Permission`; `Gap`, the modules below `User` and `Role`, and `Actions`,
--                       `Names`, `Targets`, `Options`, `Statements` and `Several` below `Permission`
--                       are theorems.
--   Constraint          src/parser/constraint_parser.rs: ConstraintTokenParser. The two places that
--                       choose a constraint by its first word are one definition here, with the name
--                       for each kind; `Columns`, `Names`, `Expression`, `TableName`, `Statements` and
--                       `Table` are theorems.
--   ColumnParser        src/parser/column_parser.rs: ColumnTokenParser. Each branch of the loop over a
--                       column's modifiers is a function of the loop's variables, and modifier_at
--                       chooses it; `Modifier`, `Rounds`, `Written` and `Regular` are theorems. The
--                       theorems leave out computed columns, inline foreign keys and defaults that call
--                       a function with arguments, which are modelled.
--   FullText            src/parser/fulltext_parser.rs: FullTextTokenParser; `Columns` and `Statements`
--                       are theorems.
--   Index               src/parser/index_parser.rs: IndexTokenParser, with `Predicate`, `Options`,
--                       `Create` and `Columnstore` for its parts, and the functions of that file that
--                       read a whole text. The regular expression PAD_INDEX_RE is a parameter. `Filtered`,
--                       `Columns`, `Skip`, `With`, `Settings`, `Clauses`, `Tail`, `Leads` and
--                       `Statements` are theorems; none is about columnstore indexes, which are
--                       modelled.
--   ExtendedProperty    src/parser/extended_property_parser.rs: ExtendedPropertyTokenParser;
--                       `Parameters` and `Calls` are theorems.
--   Batches             src/parser/tsql_parser.rs, split_batches; `Lines` has str::lines, `Grouped`,
--                       `Located`, `Joined` and `Comments` are theorems.
--   Commas              src/parser/tsql_parser.rs, split_by_top_level_comma_simple, whose depth, an i32,
--                       is an integer without bounds: a text of 2^31 parentheses would be needed to
--                       leave it; `Parts` is theorems.
--   Xml                 src/dacpac/model_xml/xml_helpers.rs. The writer of quick_xml is the parameter
--                       Writer, whose write_event may fail; `Tree`, `Escape` and `LineEndings` are
--                       theorems.
--   Columns             src/dacpac/model_xml/column_registry.rs. The extraction of a view's columns is
--                       the parameter Views; `Maps` has the hash maps, as lists, `Unique` and `Tables`
--                       are theorems.
--   Collation           src/project/collation.rs, with its table in `Table`; `Longest` is theorems.
--   Tests               runs on concrete tokens and texts, and statements in ordinary spacing.
--
-- Conventions. A text is the list of its code points, or of its bytes where the source takes bytes.
-- `Parse A` is a method that returns Option<A>: on none the parser stays where the failing step left
-- it, since the source's `?` puts nothing back. Lengths and positions (usize) are natural numbers: a
-- position never exceeds the number of tokens, so no sum of them wraps; i64 and u64 keep their bounds
-- where they are parsed and negated. A loop runs on fuel, which is the number of tokens left, or one
-- more where the loop may make a round at the end; a round that goes on takes a token at least. The
-- loops over texts go character by character.
--
-- Where a theorem is about a statement as it is written, the white space is a list of tokens at each
-- place: `g i` at place i for any function g from numbers to white space. The elements of a list have
-- places of their own (`later`), and so has a second list in a statement (`aside`), so the white space
-- at one place is independent of that at any other. What a statement means is written next to its
-- tokens, not with the functions that parse it.
--
-- In Batches, Commas, Xml, Columns and Collation a text is its characters. Batches counts characters
-- where the source counts bytes: every position that the source cuts at is a line's end, so the parts
-- are the same. Columns searches characters for ASCII words where the source searches bytes, which
-- finds the same.
--
-- Not modelled: the spans of tokens, which this code does not read; the tokenizer itself, the parsers
-- of table types, procedures and functions, the order in which they are tried on a batch,
-- the model, the writers of whole elements and of the package, the project file and the comparison,
-- of which the larger part calls the sqlparser, regex, roxmltree, quick_xml and zip crates.
pub mod Prelude
pub mod Token
pub mod Batches
pub mod Identifier
pub mod TokenParser
pub mod Util
pub mod Preprocess
pub mod Synonym
pub mod Sequence
pub mod Storage
pub mod Trigger
pub mod Collation
pub mod Columns
pub mod ColumnParser
pub mod Commas
pub mod Constraint
pub mod ExtendedProperty
pub mod FullText
pub mod Index
pub mod Security
pub mod Xml
mod Tests
