-- ===== src/Index/References.antt =====
-- A reference to a type that the API declares leads to the section of that type.
use ton_sdk.Base.{◌++◌, Text, some, List, codes, Outcome, returns, ◌≡◌, Occurs, Lacks}
use ton_sdk.Api.Types.{Api, ApiModule, ApiField, field_name}
use ton_sdk.Docs.Marks.{type_ref}
use ton_sdk.Docs.Modules.Links.{Contains}
use ton_sdk.Index.{File}
use ton_sdk.Index.Links.{link_to, page_name, file_at}

-- Neither name has a dot.
abbrev pub HasPlainNames : ApiModule → ApiField → Type 0
HasPlainNames m t = Lacks b'.' m.name × Lacks b'.' (field_name t)

module _ (home : Text) (resolve : Text → Text → Text) where
  -- The text is a link to the type's section in the file of its module, as the pages write it
  -- too, and that file is one of the files and has the section.
  abbrev pub LeadsTo : Text → List File → ApiModule → ApiField → Outcome Text → Type 0
  LeadsTo dir files m t text =
      (text ≡ returns (link_to (field_name t) (page_name m.name)))
      × (type_ref t (some m) ≡ link_to (field_name t) (page_name m.name))
      × ((page : Text) × Occurs (file_at resolve dir (page_name m.name) page) files
          × Contains page (codes "## " ++ (field_name t ++ codes "\n")))
